-- ===== src/Http.antt =====
-- What the source uses of Go's net/http: headers, requests and answers.
pub mod Headers
use tailpost.Base.{ℕ, Bytes}
use tailpost.Http.Headers.{Header}

pub record Request : Type 0 where
  pub method : Bytes
  pub url : Bytes
  pub header : Header
  pub body : Bytes

-- What a client gets back, and what a handler writes.
pub record Answer : Type 0 where
  pub status : ℕ
  pub body : Bytes
