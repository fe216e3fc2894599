-- ===== src/Sender/Post/Outcome.antt =====
-- When sending a batch succeeds.
use tailpost.Base.{◌≤◌, ◌<◌, List, Option, none, some, ◌≡◌, refl, arith, Bytes, ok, >>=-eq-ok}
use tailpost.Http.{Request, Answer}
use tailpost.Sender.Post.{Net, Poster, build_request, judge, send_batch}

-- The request was built, and the server answered it with a status from 200 to 299.
pub record Delivered (net : Net) (p : Poster) (logs : List Bytes) : Type 0 where
  pub request : Request
  pub answer : Answer
  pub built : build_request net p logs ≡ ok request
  pub answered : net.transport request ≡ some answer
  pub least : 200 ≤ answer.status
  pub most : answer.status < 300

judge-ok :
    (o : Option Answer)
    → judge o ≡ ok tt
    → (a : Answer) × (o ≡ some a) × (200 ≤ a.status) × (a.status < 300)
unfolding judge
judge-ok none h = absurd (cc)
judge-ok (some a) h = (a, refl, ground arith, ground arith)

-- Sending a batch succeeds exactly if its request is built and the server answers it with a status
-- from 200 to 299.
pub send_batch-ok_iff :
    (net : Net) (p : Poster) (logs : List Bytes)
    → (send_batch net p logs ≡ ok tt → Delivered net p logs)
      × (Delivered net p logs → send_batch net p logs ≡ ok tt)
unfolding send_batch
send_batch-ok_iff net p logs =
    (forwards, λ d. rw (d.built, d.answered) (ground (arith, d.least, d.most)))
  where
    forwards : send_batch net p logs ≡ ok tt → Delivered net p logs
    forwards h =
        let (req, built, judged) =
          >>=-eq-ok (build_request net p logs) (λ req. judge (net.transport req)) h in
        let (a, answered, least, most) = judge-ok (net.transport req) judged in
        record {
          request = req;
          answer = a;
          built = built;
          answered = answered;
          least = least;
          most = most;
        }
