-- ===== src/Agent/Posts.antt =====
-- The goroutines that post the batches, beside those of Agent/Pipeline: `flushLockedWithContext` of
-- pkg/sender/http_sender.go starts one for each batch, and nobody waits for it. When `main` returns the
-- process ends, and so do they.
pub mod Account
pub mod Exit
use tailpost.Base.{Bool, List, [], ◌∷◌, ◌++◌, ◌≡◌, ◌≢◌, Bytes, length, drop, Result}
use tailpost.Sender.Post.{Net, Poster, SendError, send_batch}
use tailpost.Agent.Pipeline.{Program, finished, Pipeline}
use tailpost.Agent.Pipeline

-- A call of `sendBatchWithContext` that has returned.
pub record Post : Type 0 where
  pub batch : List Bytes
  pub result : Result SendError (Unit {0})

-- `in_flight` are the batches whose goroutine runs. `posts` is the history of the calls that have
-- returned, one after another.
pub record Live : Type 0 where
  pub agent : Pipeline
  pub in_flight : List (List Bytes)
  pub posts : List Post

-- The body of the goroutine: the batch is sent once, and a failure is only logged.
unfoldable pub settle : Net → Poster → List Bytes → Live → Live
settle net poster batch w = record w {
  posts = w.posts ++ (record { batch = batch; result = send_batch net poster batch } ∷ []);
}

-- The agent after a step, and the goroutines that this step has started.
abbrev pub follow : Pipeline → Live → Live
follow v w = record w {
  agent = v;
  in_flight = w.in_flight ++ drop (length w.agent.sender.dispatched) v.sender.dispatched;
}

pub data Step (p : Program) (closes : Bool) (poster : Poster) : Live → Live → Type 0 where
  agent_steps :
      (w : Live) (v : Pipeline)
      → Pipeline.Step p closes w.agent v
      → Step p closes poster w (follow v w)
  -- A post ends, over the network as it is then; the posts end in any order.
  post_ends :
      (w : Live) (net : Net) (before after : List (List Bytes)) (batch : List Bytes)
      → w.agent.phase ≢ finished
      → w.in_flight ≡ before ++ (batch ∷ after)
      → Step p closes poster w (settle net poster batch (record w { in_flight = before ++ after }))

pub data Reach (p : Program) (closes : Bool) (poster : Poster) (start : Live) : Live → Type 0 where
  here : Reach p closes poster start start
  next :
      {v w : Live}
      → Reach p closes poster start v
      → Step p closes poster v w
      → Reach p closes poster start w

-- Before any batch was dispatched.
abbrev pub quiet : Pipeline → Live
quiet v = record { agent = v; in_flight = []; posts = [] }
