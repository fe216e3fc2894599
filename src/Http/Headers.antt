-- ===== src/Http/Headers.antt =====
-- `http.Header` of Go's standard library: a map from canonical keys to values. `Set` replaces the
-- value under the canonical form of the key, and `Get` of a missing key is the empty string.
use tailpost.Base.{
  ℕ, ◌+◌, ◌-◌, Bool, true, false, ◌&&◌, ◌||◌, List, [], ◌∷◌, ◌≡◌, refl, arith, Bytes, ◌==◌, leb,
  equal, equal_iff, if◌then◌else◌, bytes,
}

abbrev pub Header : Type 0
Header = List (Bytes × Bytes)

abbrev within : ℕ → ℕ → ℕ → Bool
within lo hi c = leb lo c && leb c hi

is_member : ℕ → Bytes → Bool
is_member c [] = false
is_member c (d ∷ ds) = c == d || is_member c ds

-- The bytes that a header's name may hold.
is_token : ℕ → Bool
unfolding is_member
is_token c =
    within b'a' b'z' c
    || within b'A' b'Z' c
    || within b'0' b'9' c
    || is_member c (bytes "!#$%&'*+-.^_`|~")

all_tokens : Bytes → Bool
all_tokens [] = true
all_tokens (c ∷ cs) = is_token c && all_tokens cs

capital : Bool → ℕ → ℕ
capital true c = if within b'a' b'z' c then c - 32 else c
capital false c = if within b'A' b'Z' c then c + 32 else c

capitals : Bool → Bytes → Bytes
capitals upper [] = []
capitals upper (c ∷ cs) = capital upper c ∷ capitals (c == b'-') cs

-- `textproto.CanonicalMIMEHeaderKey`.
unfoldable pub canonical : Bytes → Bytes
unfolding is_token all_tokens capital capitals
canonical k = if all_tokens k then capitals true k else k

unfoldable pub lookup : Bytes → Header → Bytes
lookup k [] = []
lookup k ((j, v) ∷ h) = if equal j k then v else lookup k h

unfoldable pub insert : Bytes → Bytes → Header → Header
insert k v [] = (k, v) ∷ []
insert k v ((j, w) ∷ h) = if equal j k then (k, v) ∷ h else (j, w) ∷ insert k v h

-- `h.Get(k)` and `h.Set(k, v)`.
unfoldable pub get : Bytes → Header → Bytes
unfolding lookup
get k h = lookup (canonical k) h

unfoldable pub set : Bytes → Bytes → Header → Header
unfolding insert
set k v h = insert (canonical k) v h

lookup-insert :
    (k j v : Bytes) (h : Header) → lookup j (insert k v h) ≡ (if equal k j then v else lookup j h)
unfolding lookup insert
lookup-insert k j v [] = refl
lookup-insert k j v ((i, w) ∷ h) =
    ground (arith, equal_iff k j, equal_iff i k, equal_iff i j, lookup-insert k j v h)

pub get-set :
    (k j v : Bytes) (h : Header)
    → get j (set k v h) ≡ (if equal (canonical k) (canonical j) then v else get j h)
unfolding get set
get-set k j v h = lookup-insert (canonical k) (canonical j) v h

pub get-set_self : (k v : Bytes) (h : Header) → get k (set k v h) ≡ v
get-set_self k v h = ground (arith, get-set k k v h, equal_iff (canonical k) (canonical k))
