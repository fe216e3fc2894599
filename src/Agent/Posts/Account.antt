-- ===== src/Agent/Posts/Account.antt =====
-- Where the batches are.
use mathlib.Core.List.{
  append_assoc, append-nil, Perm, perm_append_comm, perm_append_singleton, perm_middle,
}
use mathlib.Core.List.Perm
use tailpost.Base.{
  Bool, List, [], ◌∷◌, ◌++◌, ◌≡◌, sym, ap, ◌∙◌, subst, Bytes, length, drop, drop-append_length, inl,
  inr, ok, map, All, All-append, refl,
}
use tailpost.Sender.{Sender}
use tailpost.Sender.Safe.{Grown, step-Grown}
use tailpost.Sender.Post.{Net, Poster, send_batch}
use tailpost.Sender.Post.Outcome.{Delivered, send_batch-ok_iff}
use tailpost.Agent.Pipeline.{Program, Pipeline}
use tailpost.Agent.Pipeline
use tailpost.Agent.Pipeline.Delivery.{Step-sender}
use tailpost.Agent.Posts.{
  Post, Live, settle, follow, quiet, Step, agent_steps, post_ends, Reach, here, next,
}

abbrev pub Batches : Type 0
Batches = List (List Bytes)

-- The goroutines that a step starts have the batches that it dispatches.
launched :
    (s t : Sender)
    → Grown t s
    → t.dispatched ≡ s.dispatched ++ drop (length s.dispatched) t.dispatched
launched s t (more, e) =
    e
    ∙ ap (λ (x : Batches). s.dispatched ++ x)
        (sym (drop-append_length s.dispatched more)
          ∙ ap (λ (x : Batches). drop (length s.dispatched) x) (sym e))

Step-Grown :
    {p : Program} {closes : Bool} {v w : Pipeline}
    → Pipeline.Step p closes v w
    → Grown w.sender v.sender
Step-Grown {v = v} s = elim (Step-sender s) [
  | inl e ↦ ([], ap (λ (x : Sender). x.dispatched) e ∙ sym (append-nil _))
  | inr (x, e) ↦ subst (λ (t : Sender). Grown t v.sender) (sym e) (step-Grown x v.sender)
]

-- The batches that were posted, once for each call.
abbrev pub posted : List Post → Batches
posted ps = map (λ (c : Post). c.batch) ps

-- The call succeeded exactly if, over some network, its request was built and answered with a status
-- from 200 to 299, and is what sending the batch over that network gives.
abbrev pub IsJudged : Poster → Post → Type 0
IsJudged poster c =
    (net : Net) × (c.result ≡ send_batch net poster c.batch)
    × (c.result ≡ ok tt → Delivered net poster c.batch)
    × (Delivered net poster c.batch → c.result ≡ ok tt)

-- Every batch is in flight, or was posted once and judged.
abbrev pub IsAccounted : Poster → Live → Type 0
IsAccounted poster w =
    Perm w.agent.sender.dispatched (w.in_flight ++ posted w.posts) × All (IsJudged poster) w.posts

-- New batches, behind those in flight.
with_new : (d f r new : Batches) → Perm d (f ++ r) → Perm (d ++ new) ((f ++ new) ++ r)
with_new d f r new h =
    subst (λ (x : Batches). Perm (d ++ new) x) (sym (append_assoc f new r))
      (Perm.trans (Perm.append_right new h) (
        subst (λ (x : Batches). Perm x (f ++ (new ++ r))) (sym (append_assoc f r new))
          (Perm.append_left f (perm_append_comm r new))))

-- A batch leaves those in flight for the end of those posted.
moved :
    (before after rest : Batches) (x : List Bytes)
    → Perm ((before ++ (x ∷ after)) ++ rest) ((before ++ after) ++ (rest ++ (x ∷ [])))
moved before after rest x = Perm.trans (Perm.append_right rest (perm_middle before after)) (
    Perm.trans (Perm.symm (perm_middle (before ++ after) rest))
      (Perm.append_left (before ++ after) (Perm.symm (perm_append_singleton x rest))))

posted-append : (ps qs : List Post) → posted (ps ++ qs) ≡ posted ps ++ posted qs
posted-append [] qs = refl
posted-append (p ∷ ps) qs = ap (λ (x : Batches). p.batch ∷ x) (posted-append ps qs)

settled :
    (net : Net) (poster : Poster) (w : Live) (before after : Batches) (x : List Bytes)
    → w.in_flight ≡ before ++ (x ∷ after)
    → IsAccounted poster w
    → IsAccounted poster (settle net poster x (record w { in_flight = before ++ after }))
unfolding settle
settled net poster w before after x e (h, judged) = (
  subst (λ (y : Batches). Perm w.agent.sender.dispatched ((before ++ after) ++ y))
      (sym (posted-append w.posts _))
      (Perm.trans
        (subst (λ (y : Batches). Perm w.agent.sender.dispatched (y ++ posted w.posts)) e h)
        (moved before after (posted w.posts) x)),
  All-append (IsJudged poster) w.posts _ judged
      ((net, refl, (send_batch-ok_iff net poster x).0, (send_batch-ok_iff net poster x).1), tt),
)

Step-IsAccounted :
    {p : Program} {closes : Bool} {poster : Poster} {v w : Live}
    → Step p closes poster v w
    → IsAccounted poster v
    → IsAccounted poster w
Step-IsAccounted (agent_steps w v s) (h, judged) = (
  subst (λ (y : Batches). Perm y ((follow v w).in_flight ++ posted w.posts))
      (sym (launched w.agent.sender v.sender (Step-Grown s)))
      (with_new w.agent.sender.dispatched w.in_flight (posted w.posts) _ h),
  judged,
)
Step-IsAccounted {poster = poster} (post_ends w net before after batch runs e) h =
    settled net poster w before after batch e h

Reach-IsAccounted :
    {p : Program} {closes : Bool} {poster : Poster} {v w : Live}
    → Reach p closes poster v w
    → IsAccounted poster v
    → IsAccounted poster w
Reach-IsAccounted here h = h
Reach-IsAccounted (next r s) h = Step-IsAccounted s (Reach-IsAccounted r h)

pub posts_account :
    {p : Program} {closes : Bool} {poster : Poster} (agent : Pipeline) (w : Live)
    → agent.sender.dispatched ≡ []
    → Reach p closes poster (quiet agent) w
    → Perm w.agent.sender.dispatched (w.in_flight ++ posted w.posts) × All (IsJudged poster) w.posts
posts_account agent w e r =
    Reach-IsAccounted r (subst (λ (x : Batches). Perm x []) (sym e) (Perm.refl []), tt)
