-- ===== src/Examples/Posts.antt =====
-- The theorems on the posts of the agent, and on what /metrics shows, on short runs.
use mathlib.Core.List.{Perm}
use tailpost.Base.{false, [], ◌∷◌, ◌++◌, length, ◌≡◌, refl, arith, bytes, flatten}
use tailpost.Base.Int.{pos}
use tailpost.Health.{serve}
use tailpost.Sender.{Sender, new_http_sender, step, send, send_with_context, flush_locked}
use tailpost.Sender.Batches.{accepted}
use tailpost.Agent.Pipeline.{
  agent_main, agent_single, finished, line_read, line_processed, reader_ended, initial,
}
use tailpost.Agent.Pipeline.Metrics.{metrics_blind}
use tailpost.Agent.Posts.{Live, settle, agent_steps, Reach, here, next, quiet}
use tailpost.Agent.Posts.Account.{posted}
use tailpost.Agent.Posts.Exit.{exit_before_posts}
use tailpost.Examples.Agent.{open_server, probe, now}
use tailpost.Examples.Sender.{net, poster}
use tailpost.Examples.Pipeline.{entry, later, sender, run}

-- Batches of one line.
abbrev eager : Sender
eager = new_http_sender (bytes "http://logs") (pos 1) (pos 5)

abbrev start : Live
start = quiet (initial (entry ∷ []) eager open_server)

abbrev handed : Live
handed = record {
  agent = record (initial [] eager open_server) {
    sender = record eager { dispatched = (entry ∷ []) ∷ [] };
  };
  in_flight = (entry ∷ []) ∷ [];
  posts = [];
}

handed-Reach : Reach agent_main false poster start handed
unfolding new_http_sender step send send_with_context flush_locked
handed-Reach =
    next (next here (agent_steps start _ (line_read _ entry [] refl refl (omega arith))))
      (agent_steps _ _ (line_processed _ entry [] refl refl))

abbrev settled : Live
settled = settle net poster (entry ∷ []) (record handed { in_flight = [] ++ [] })

unsent : eager.dispatched ≡ []
unfolding new_http_sender
unsent = refl

abbrev left : Live
left = record handed { agent = record handed.agent { reading = false } }

left-Reach : Reach agent_main false poster start left
left-Reach = next handed-Reach (agent_steps handed _ (reader_ended _ refl))

exit_before_posts_example :
    (v : Live) × Reach agent_main false poster left v
    × (v.agent.phase ≡ finished)
    × (v.posts ≡ left.posts)
    × Perm v.agent.sender.dispatched (v.in_flight ++ posted left.posts)
exit_before_posts_example =
    exit_before_posts (entry ∷ []) eager open_server left unsent left-Reach refl

none_accepted : length (accepted sender) ≡ 0
unfolding new_http_sender flatten
none_accepted = refl

metrics_blind_example :
    ((later agent_single).sent_total ≡ length (accepted (later agent_single).sender))
    × (serve (later agent_single).health now (probe (bytes "/metrics"))
        ≡ serve open_server (bytes "0") (probe (bytes "/metrics")))
metrics_blind_example =
    metrics_blind false (entry ∷ bytes "PUT /" ∷ []) sender open_server (later agent_single) now
      (bytes "0") (probe (bytes "/metrics")) none_accepted (run agent_single) refl
