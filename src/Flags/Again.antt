-- ===== src/Flags/Again.antt =====
-- A second `flag.Parse` of the same arguments, after more flags were defined.
use tailpost.Base.{List, [], ◌∷◌, Option, none, some, Bytes, ◌≡◌, ◌≢◌, refl, Result, ok, err}
use tailpost.Flags.{
  Exit, Flag, Step, stops, fails, takes_one, takes_two, Argument, flags_end, misspelt, named,
  classify, Defined, set_argument, set_found, parse_one, follow, parse,
}

module _ {S : Type 0} where
  -- What is made of an argument that was not refused, and of the arguments behind it.
  followed :
      (u v : Step S) (one two one' two' : Result Exit (List S)) (ss : List S)
      → (((x : Exit) → u ≢ fails x) → v ≡ u)
      → ((ts : List S) → one ≡ ok ts → one' ≡ ok ts)
      → ((ts : List S) → two ≡ ok ts → two' ≡ ok ts)
      → follow u one two ≡ ok ss
      → follow v one' two' ≡ ok ss
  followed stops v one two one' two' ss same h k e = rw (same (λ x q. cc)) e
  followed (fails x) v one two one' two' ss same h k e = cc
  followed (takes_one s) v (ok ts) two one' two' ss same h k e =
      rw (same (λ x q. cc)) (rw (h ts refl) e)
  followed (takes_one s) v (err x) two one' two' ss same h k e = cc
  followed (takes_two s) v one (ok ts) one' two' ss same h k e =
      rw (same (λ x q. cc)) (rw (k ts refl) e)
  followed (takes_two s) v one (err x) one' two' ss same h k e = cc

  found_same :
      (o p : Option (Flag S)) (n : Bytes) (v next : Option Bytes)
      → ((f : Flag S) → o ≡ some f → p ≡ some f)
      → ((x : Exit) → set_found o n v next ≢ fails x)
      → set_found p n v next ≡ set_found o n v next
  unfolding set_found
  found_same none p n v next extends h = absurd (h _ refl)
  found_same (some f) p n v next extends h = rw (extends f refl) refl

module _ {S : Type 0} (d e : Defined S)
    (extends : (n : Bytes) (f : Flag S) → d n ≡ some f → e n ≡ some f) where
  set_argument_same :
      (next : Option Bytes) (a : Argument)
      → ((x : Exit) → set_argument d next a ≢ fails x)
      → set_argument e next a ≡ set_argument d next a
  unfolding set_argument
  set_argument_same next flags_end h = refl
  set_argument_same next misspelt h = refl
  set_argument_same next (named n v) h = found_same (d n) (e n) n v next (extends n) h

  -- A second `Parse` makes the settings of the first, whatever other flags were defined in between.
  pub parse_again : (args : List Bytes) (ss : List S) → parse d args ≡ ok ss → parse e args ≡ ok ss
  unfolding parse parse_one
  parse_again [] ss h = h
  parse_again (a ∷ []) ss h =
      followed (parse_one d a none) (parse_one e a none) (ok []) (ok []) (ok []) (ok []) ss
        (set_argument_same none (classify a)) (λ ts q. q) (λ ts q. q) h
  parse_again (a ∷ b ∷ rest) ss h =
      followed (parse_one d a (some b)) (parse_one e a (some b)) _ _ _ _ ss
        (set_argument_same (some b) (classify a)) (λ ts q. parse_again (b ∷ rest) ts q)
        (λ ts q. parse_again rest ts q) h
