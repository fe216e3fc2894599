-- ===== src/Agent/Posts/Exit.antt =====
-- The end of the process, and the posts that have not ended by then.
use mathlib.Core.List.{Perm}
use tailpost.Base.{Bool, false, List, [], ◌++◌, ◌≡◌, refl, sym, ap, ◌∙◌, subst, Bytes}
use tailpost.Health.{HealthServer}
use tailpost.Sender.{Sender}
use tailpost.Sender.Post.{Net, Poster}
use tailpost.Agent.Pipeline.{Program, Pipeline, finished, initial}
use tailpost.Agent.Pipeline
use tailpost.Agent.Pipeline.Shutdown.{shutdown_completes}
use tailpost.Agent.Posts.{
  Post, Live, settle, follow, Step, agent_steps, post_ends, Reach, here, next, quiet,
}
use tailpost.Agent.Posts.Account.{posts_account, posted}

settle-agent :
    (net : Net) (poster : Poster) (batch : List Bytes) (w : Live)
    → (settle net poster batch w).agent ≡ w.agent
unfolding settle
settle-agent net poster batch w = refl

-- The posts do not change what the agent does.
Step-agent :
    {p : Program} {closes : Bool} {poster : Poster} (u : Pipeline) {v w : Live}
    → Step p closes poster v w
    → Pipeline.Reach p closes u v.agent
    → Pipeline.Reach p closes u w.agent
Step-agent u (agent_steps w v s) r = Pipeline.next r s
Step-agent {p} {closes} u (post_ends w net before after batch runs e) r =
    subst (λ (x : Pipeline). Pipeline.Reach p closes u x) (sym (settle-agent net _ batch _)) r

Reach-agent :
    {p : Program} {closes : Bool} {poster : Poster} {v w : Live}
    → Reach p closes poster v w
    → Pipeline.Reach p closes v.agent w.agent
Reach-agent here = Pipeline.here
Reach-agent {v = v} (next r s) = Step-agent v.agent s (Reach-agent r)

Reach-trans :
    {p : Program} {closes : Bool} {poster : Poster} {u v w : Live}
    → Reach p closes poster u v
    → Reach p closes poster v w
    → Reach p closes poster u w
Reach-trans r here = r
Reach-trans r (next s t) = next (Reach-trans r s) t

-- A run of the agent in which no post ends.
silent :
    {p : Program} {closes : Bool} (poster : Poster) (w : Live) (v : Pipeline)
    → Pipeline.Reach p closes w.agent v
    → (u : Live) × Reach p closes poster w u × (u.agent ≡ v) × (u.posts ≡ w.posts)
silent poster w v Pipeline.here = (w, here, refl, refl)
silent {p} {closes} poster w v (Pipeline.next {v = x} r s) =
    let (u, ru, e, d) = silent poster w x r in
    let t = subst (λ (y : Pipeline). Pipeline.Step p closes y v) (sym e) s in
    (follow v u, next ru (agent_steps u v t), refl, d)

-- Either agent may end without its last posts: from every state that is reached in which the reader's
-- goroutine has ended there is a run to
-- one in which the main goroutine has finished and no further post has ended, so that the batches
-- handed over are, up to their order, those of the posts that had ended before and those still in
-- flight, whose goroutines end with the process. This holds for a sender that has dispatched nothing
-- before.
pub exit_before_posts :
    {p : Program} {closes : Bool} {poster : Poster} (lines : List Bytes) (sender : Sender)
    (health : HealthServer) (w : Live)
    → sender.dispatched ≡ []
    → Reach p closes poster (quiet (initial lines sender health)) w
    → w.agent.reading ≡ false
    → (v : Live) × Reach p closes poster w v
      × (v.agent.phase ≡ finished)
      × (v.posts ≡ w.posts)
      × Perm v.agent.sender.dispatched (v.in_flight ++ posted w.posts)
exit_before_posts {p} {closes} {poster} lines sender health w e r q =
    let (a, ra, done) =
      (shutdown_completes p closes lines sender health w.agent (Reach-agent r)).1 q in
    let (v, rv, ea, d) = silent poster w a ra in
    let (all, judged) = posts_account (initial lines sender health) v e (Reach-trans r rv) in
    (
      v,
      rv,
      ap (λ (x : Pipeline). x.phase) ea ∙ done,
      d,
      subst (λ (x : List Post). Perm v.agent.sender.dispatched (v.in_flight ++ posted x)) d all,
    )
