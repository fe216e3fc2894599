-- ===== src/Security/Auth/RoundTrip.antt =====
-- A server with a provider, and a client that authenticates with one of the same type.

use tailpost.Base.{
  ◌<◌, Bool, true, false, ◌&&◌, List, [], ◌∷◌, ◌++◌, none, some, ◌≡◌, ◌≢◌, refl, arith, Bytes,
  equal, equal_iff, Result, ok, ◌>>=◌, All, All-append, ◌∙◌, length, equal_refl,
}
use tailpost.Http.{Request}
use tailpost.Http.Headers.{Header, get, set, canonical, get-set, get-set_self}
use tailpost.Security.Base64.RoundTrip.{AllBytes, decode-encode}
use tailpost.Security.Text.{
  split_once, strip_prefix-append, split_once-append, split_once-some, split_once-shorter,
}
use tailpost.Security.Auth.{
  AuthProvider, basic, token, header, AuthError, FetchToken, set_all, all_match, add_authentication,
  check_pair, authenticate,
}

equal_shorter : (a b : Bytes) → length a < length b → equal a b ≡ false
unfolding equal
equal_shorter [] [] h = absurd (omega arith)
equal_shorter [] (y ∷ b) h = refl
equal_shorter (x ∷ a) [] h = absurd (omega arith)
equal_shorter (x ∷ a) (y ∷ b) h = ground (arith, equal_shorter a b)

-- The request of a client that authenticates with `p`, as a server with `q` judges it.
abbrev pub judged : FetchToken → AuthProvider → AuthProvider → Request → Result AuthError Bool
judged fetch p q req = add_authentication fetch p req >>= authenticate q

module _ (fetch : FetchToken) (req : Request) where
  judged_basic :
      (u p u' p' : Bytes)
      → AllBytes u'
      → AllBytes p'
      → judged fetch (basic u' p') (basic u p) req
        ≡ ok (check_pair u p (split_once b':' (u' ++ (b':' ∷ p'))))
  unfolding add_authentication authenticate
  judged_basic u p u' p' hu hp = rw (
    get-set_self,
    strip_prefix-append,
    decode-encode (u' ++ (b':' ∷ p')) (All-append _ u' (b':' ∷ p') hu (omega arith, hp)),
  )

  -- A client is let in by basic authentication exactly if its user name and password are the
  -- server's, where the client's user name has no colon.
  pub basic_exact :
      (u p u' p' : Bytes)
      → AllBytes u'
      → AllBytes p'
      → split_once b':' u' ≡ none
      → judged fetch (basic u' p') (basic u p) req ≡ ok (equal u' u && equal p' p)
  unfolding check_pair
  basic_exact u p u' p' hu hp plain =
      judged_basic u p u' p' hu hp ∙ rw (split_once-append b':' u' p' plain)

  -- A client whose user name holds a colon is refused by the server with the same credentials.
  basic_colon :
      (u p x y : Bytes)
      → AllBytes u
      → AllBytes p
      → split_once b':' u ≡ some (x, y)
      → judged fetch (basic u p) (basic u p) req ≡ ok false
  unfolding check_pair
  basic_colon u p x y hu hp colon =
      judged_basic u p u p hu hp
      ∙ rw (split_once-some b':' u x y (b':' ∷ p) colon)
          (rw (equal_shorter x u (split_once-shorter b':' u x y colon)))

  -- A client is let in by a token exactly if it is the server's.
  token_exact : (t t' : Bytes) → judged fetch (token t') (token t) req ≡ ok (equal t' t)
  unfolding add_authentication authenticate
  token_exact t t' = rw (get-set_self, strip_prefix-append)

-- No header's name is another's in canonical form.
abbrev pub Distinct : List (Bytes × Bytes) → Type 0
Distinct [] = Unit
Distinct ((k, v) ∷ kvs) = All (λ kv. canonical k ≢ canonical kv.0) kvs × Distinct kvs

get-set_all :
    (k : Bytes) (kvs : List (Bytes × Bytes)) (h : Header)
    → All (λ kv. canonical k ≢ canonical kv.0) kvs
    → get k (set_all kvs h) ≡ get k h
unfolding set_all
get-set_all k [] h d = refl
get-set_all k ((j, v) ∷ kvs) h d =
    get-set_all k kvs (set j v h) d.1
    ∙ ground (arith, get-set j k v h, equal_iff (canonical j) (canonical k), d.0)

all_match-set_all :
    (kvs : List (Bytes × Bytes)) (h : Header) → Distinct kvs → all_match kvs (set_all kvs h) ≡ true
unfolding all_match set_all
all_match-set_all [] h d = refl
all_match-set_all ((k, v) ∷ kvs) h d =
    rw (get-set_all k kvs (set k v h) d.0, get-set_self, equal_refl)
      (all_match-set_all kvs (set k v h) d.1)

-- A client with the server's headers is let in, if no two of their names are one header.
header_complete :
    (fetch : FetchToken) (req : Request) (kvs : List (Bytes × Bytes))
    → Distinct kvs
    → judged fetch (header kvs) (header kvs) req ≡ ok true
unfolding add_authentication authenticate
header_complete fetch req kvs d = rw (all_match-set_all kvs req.header d)
