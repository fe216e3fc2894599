-- ===== src/Reader/Container.antt =====
-- The outer loop of `tailContainer` (pkg/reader/container_reader.go): the streams of a container's
-- log, one after another, until the pod is gone. The API is not under the repository's control: what
-- its documentation says of a stream with `TailLines` and `Follow` is written out in `delivered`.
pub mod Gaps
pub mod Restart
use tailpost.Base.{ℕ, zero, suc, ◌-◌, Bool, List, [], ◌∷◌, ◌++◌, Bytes, length, drop, if◌then◌else◌}

-- `int64Ptr(10)`.
abbrev pub tail_lines : ℕ
tail_lines = 10

-- A round of the loop: the stream was not opened, or it was. `missed` are the lines that the container
-- writes before that, `followed` those that it writes while the stream is open, and `pod_exists` says
-- what the `Get` of the pod behind the stream finds.
pub data Round : Type 0 where
  not_opened : (missed : List Bytes) → Round
  streamed : (missed followed : List Bytes) (pod_exists : Bool) → Round

-- The lines that a stream delivers, opened when the container has written `log`.
abbrev pub delivered : List Bytes → List Bytes → List Bytes
delivered log followed = drop (length log - tail_lines) log ++ followed

-- The lines that the loop puts on the channel; `log` is what the container wrote before.
unfoldable pub tail_container : List Bytes → List Round → List Bytes
tail_container log [] = []
tail_container log (not_opened missed ∷ rounds) = tail_container (log ++ missed) rounds
tail_container log (streamed missed followed pod_exists ∷ rounds) =
    let later = tail_container ((log ++ missed) ++ followed) rounds in
    delivered (log ++ missed) followed ++ (if pod_exists then later else [])
