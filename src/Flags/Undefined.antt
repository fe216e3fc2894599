-- ===== src/Flags/Undefined.antt =====
-- Flags that are written `--name=value`: what `flag.Parse` makes of them, and the end of the process at
-- one that is not defined.
use tailpost.Base.{
  Bool, true, false, not, ◌&&◌, List, [], ◌∷◌, ◌++◌, Option, none, some, Bytes, bytes, equal_iff,
  ◌==◌, ◌≡◌, ◌≢◌, refl, arith, err,
}
use tailpost.Flags.{
  wrong_usage, Flag, switch, valued, fails, takes_one, named, split_value, named_of, classify,
  Defined, set_found, set_flag, set_argument, parse_one, before, parse,
}

abbrev pub written : Bytes → Bytes → Bytes
written name value = b'-' ∷ b'-' ∷ (name ++ (b'=' ∷ value))

-- A name that is read back: not empty, without a "-" in front and without "=".
abbrev no_equals : Bytes → Bool
no_equals [] = true
no_equals (c ∷ cs) = not (c == b'=') && no_equals cs

abbrev pub is_name : Bytes → Bool
is_name [] = false
is_name (c ∷ cs) = not (c == b'-') && no_equals (c ∷ cs)

split_value-written :
    (n v : Bytes) → no_equals n ≡ true → split_value (n ++ (b'=' ∷ v)) ≡ (n, some v)
unfolding split_value
split_value-written [] v h = refl
split_value-written (c ∷ cs) v h =
    let rest : no_equals cs ≡ true → split_value (cs ++ (b'=' ∷ v)) ≡ (cs, some v) =
      split_value-written cs v in
    ground arith

classify-written : (n v : Bytes) → is_name n ≡ true → classify (written n v) ≡ named n (some v)
unfolding classify named_of
classify-written [] v h = cc
classify-written (c ∷ []) v h = let e = split_value-written (c ∷ []) v in ground arith
classify-written (c ∷ d ∷ cs) v h = let e = split_value-written (c ∷ d ∷ cs) v in ground arith

module _ {S : Type 0} where
  -- A value behind "=" leaves the next argument alone.
  set_flag-next :
      (f : Flag S) (v : Bytes) (next : Option Bytes)
      → set_flag f (some v) next ≡ set_flag f (some v) none
  unfolding set_flag
  set_flag-next (switch f) v next = refl
  set_flag-next (valued f) v next = refl

  module _ (d : Defined S) where
    parse_one-written :
        (n v : Bytes) (f : Flag S) (next : Option Bytes)
        → is_name n ≡ true
        → d n ≡ some f
        → parse_one d (written n v) next ≡ set_flag f (some v) none
    unfolding parse_one set_argument set_found
    parse_one-written n v f next h e = rw (classify-written n v h) (rw e (set_flag-next f v next))

    -- A flag that takes its value, and the arguments behind it.
    pub parse-written :
        (n v : Bytes) (f : Flag S) (s : S) (rest : List Bytes)
        → is_name n ≡ true
        → d n ≡ some f
        → set_flag f (some v) none ≡ takes_one s
        → parse d (written n v ∷ rest) ≡ before s (parse d rest)
    unfolding parse
    parse-written n v f s [] h e t = rw (parse_one-written n v f none h e) (rw t refl)
    parse-written n v f s (a ∷ rest) h e t = rw (parse_one-written n v f (some a) h e) (rw t refl)

    parse_one-undefined :
        (n v : Bytes) (next : Option Bytes)
        → is_name n ≡ true
        → d n ≡ none
        → n ≢ bytes "help"
        → n ≢ bytes "h"
        → parse_one d (written n v) next ≡ fails wrong_usage
    unfolding parse_one set_argument set_found
    parse_one-undefined n v next h e no_help no_h =
        rw (classify-written n v h)
          (rw e (ground (arith, equal_iff n (bytes "help"), equal_iff n (bytes "h"))))

    pub parse-undefined :
        (n v : Bytes) (rest : List Bytes)
        → is_name n ≡ true
        → d n ≡ none
        → n ≢ bytes "help"
        → n ≢ bytes "h"
        → parse d (written n v ∷ rest) ≡ err wrong_usage
    unfolding parse
    parse-undefined n v [] h e x y = rw (parse_one-undefined n v none h e x y) refl
    parse-undefined n v (a ∷ rest) h e x y = rw (parse_one-undefined n v (some a) h e x y) refl
