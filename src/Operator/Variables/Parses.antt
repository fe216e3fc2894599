-- ===== src/Operator/Variables/Parses.antt =====
-- The two calls of `flag.Parse` in cmd/operator/main.go, on whatever flags the imported packages define.
use tailpost.Base.{
  Bool, true, false, List, [], ◌∷◌, ◌++◌, Option, none, some, Bytes, bytes, ◌≡◌, ◌≢◌, refl, sym, ap,
  ◌∙◌, Result, ok, err, Option-cases, ◌⊎◌, ◌>>=◌, if◌then◌else◌, inl, inr,
}
use tailpost.Flags.{Exit, wrong_usage, Flag, Defined, parse, before, set_flag, takes_one}
use tailpost.Flags.Again.{parse_again}
use tailpost.Flags.Undefined.{written, is_name, parse-undefined, parse-written}
use tailpost.Operator.Variables.{
  TextFlag, SwitchFlag, Variables, Setting, set_text, set_switch, set_other, same_text, same_switch,
  put, put_all, defined, bound, or_else, own_flag, default_variables, parsed_on, read_flags,
}

abbrev given {ℓ} : {A : Type ℓ} → Option A → A → A
given none v = v
given (some w) v = w

-- A variable after a list of settings, each of which may assign it.
after {ℓ} : {A : Type ℓ} → (Setting → Option A) → List Setting → A → A
after assigned [] v = v
after assigned (s ∷ ss) v = after assigned ss (given (assigned s) v)

module _ {ℓ} {A : Type ℓ} (assigned : Setting → Option A) where
  -- Either some setting assigns the variable, or none does.
  assigns_or_keeps :
      (ss : List Setting)
      → ((v w : A) → after assigned ss v ≡ after assigned ss w)
        ⊎ ((v : A) → after assigned ss v ≡ v)
  unfolding after
  assigns_or_keeps [] = inr (λ v. refl)
  assigns_or_keeps (s ∷ ss) = elim (assigns_or_keeps ss) [
    | inl constant ↦ inl (λ v w. constant _ _)
    | inr keeps ↦ elim (Option-cases (assigned s)) [
      | inl e ↦ inr (λ v. keeps _ ∙ rw e refl)
      | inr (x, e) ↦ inl (λ v w. rw e refl)
    ]
  ]

  after-after :
      (ss : List Setting) (v : A) → after assigned ss (after assigned ss v) ≡ after assigned ss v
  after-after ss v = elim (assigns_or_keeps ss) [
    | inl constant ↦ constant _ v
    | inr keeps ↦ keeps _
  ]

abbrev text_of : TextFlag → Setting → Option Bytes
text_of f (set_text g v) = if same_text g f then some v else none
text_of f (set_switch g b) = none
text_of f set_other = none

abbrev switch_of : SwitchFlag → Setting → Option Bool
switch_of f (set_text g v) = none
switch_of f (set_switch g b) = if same_switch g f then some b else none
switch_of f set_other = none

chosen {ℓ} :
    {A : Type ℓ} (t : Bool) (v w : A) → (if t then v else w) ≡ given (if t then some v else none) w
chosen true v w = refl
chosen false v w = refl

text-put :
    (f : TextFlag) (s : Setting) (o : Variables) → (put s o).text f ≡ given (text_of f s) (o.text f)
unfolding put
text-put f (set_text g v) o = chosen (same_text g f) v (o.text f)
text-put f (set_switch g b) o = refl
text-put f set_other o = refl

is_on-put :
    (f : SwitchFlag) (s : Setting) (o : Variables)
    → (put s o).is_on f ≡ given (switch_of f s) (o.is_on f)
unfolding put
is_on-put f (set_text g v) o = refl
is_on-put f (set_switch g b) o = chosen (same_switch g f) b (o.is_on f)
is_on-put f set_other o = refl

text-put_all :
    (f : TextFlag) (ss : List Setting) (o : Variables)
    → (put_all ss o).text f ≡ after (text_of f) ss (o.text f)
unfolding put_all after
text-put_all f [] o = refl
text-put_all f (s ∷ ss) o = text-put_all f ss (put s o) ∙ ap (after (text_of f) ss) (text-put f s o)

is_on-put_all :
    (f : SwitchFlag) (ss : List Setting) (o : Variables)
    → (put_all ss o).is_on f ≡ after (switch_of f) ss (o.is_on f)
unfolding put_all after
is_on-put_all f [] o = refl
is_on-put_all f (s ∷ ss) o =
    is_on-put_all f ss (put s o) ∙ ap (after (switch_of f) ss) (is_on-put f s o)

-- Making the same settings again changes nothing.
module _ (ss : List Setting) (o : Variables) where
  texts : (f : TextFlag) → (put_all ss (put_all ss o)).text f ≡ (put_all ss o).text f
  texts f =
      text-put_all f ss (put_all ss o)
      ∙ ap (after (text_of f) ss) (text-put_all f ss o)
      ∙ after-after (text_of f) ss (o.text f)
      ∙ sym (text-put_all f ss o)

  switches : (f : SwitchFlag) → (put_all ss (put_all ss o)).is_on f ≡ (put_all ss o).is_on f
  switches f =
      is_on-put_all f ss (put_all ss o)
      ∙ ap (after (switch_of f) ss) (is_on-put_all f ss o)
      ∙ after-after (switch_of f) ss (o.is_on f)
      ∙ sym (is_on-put_all f ss o)

  put_all-put_all : put_all ss (put_all ss o) ≡ put_all ss o
  put_all-put_all = λ i. record { text = λ f. texts f i; is_on = λ f. switches f i }

or_else-some {ℓ} :
    {A : Type ℓ} (o p q : Option A) (x : A)
    → or_else o p ≡ some x
    → or_else o (or_else p q) ≡ some x
or_else-some (some y) p q x h = h
or_else-some none (some y) q x h = h
or_else-some none none q x h = cc

defined-bound :
    (imported zap : Defined Setting) (n : Bytes) (f : Flag Setting)
    → defined imported n ≡ some f
    → bound imported zap n ≡ some f
unfolding defined bound
defined-bound imported zap n f h = or_else-some (own_flag n) (imported n) (zap n) f h

twice :
    (r t : Result Exit (List Setting)) (o : Variables)
    → ((ss : List Setting) → r ≡ ok ss → t ≡ ok ss)
    → (parsed_on o r >>= λ v. parsed_on v t) ≡ parsed_on o r
twice (ok ss) t o h = rw (h ss refl) (ap (λ (v : Variables). ok v) (put_all-put_all ss o))
twice (err e) t o h = refl

-- The second call of `flag.Parse`, behind `BindFlags`, has no effect: whatever the arguments, the
-- variables are those that the first call alone leaves, or the process ends where the first call ends
-- it. In particular no flag of zap is ever taken: one that the first call does not know ends the process.
pub read_flags_once :
    (imported zap : Defined Setting) (args : List Bytes)
    → read_flags imported zap args ≡ parsed_on default_variables (parse (defined imported) args)
unfolding read_flags
read_flags_once imported zap args =
    twice (parse (defined imported) args) (parse (bound imported zap) args) default_variables
      (λ ss e.
        parse_again (defined imported) (bound imported zap) (defined-bound imported zap) args ss e)

-- The flags of the operator that are given as `--name=value`, one behind the other, each with what it sets.
abbrev pub Given : Type 0
Given = List (Bytes × Bytes × Setting)

abbrev pub arguments : Given → List Bytes
arguments [] = []
arguments ((n, v, s) ∷ gs) = written n v ∷ arguments gs

abbrev pub AreTaken : Defined Setting → Given → Type 0
AreTaken d [] = Unit {0}
AreTaken d ((n, v, s) ∷ gs) =
    ((is_name n ≡ true)
      × ((f : Flag Setting) × (d n ≡ some f) × (set_flag f (some v) none ≡ takes_one s)))
    × AreTaken d gs

parse-arguments :
    (d : Defined Setting) (gs : Given) (rest : List Bytes)
    → AreTaken d gs
    → parse d rest ≡ err wrong_usage
    → parse d (arguments gs ++ rest) ≡ err wrong_usage
parse-arguments d [] rest h e = e
parse-arguments d ((n, v, s) ∷ gs) rest ((name, (f, q, t)), h) e =
    parse-written d n v f s (arguments gs ++ rest) name q t
    ∙ ap (before s) (parse-arguments d gs rest h e)

-- The first flag that the operator does not know ends the process, whatever was set before.
pub read_flags-undefined :
    (imported zap : Defined Setting) (gs : Given) (n v : Bytes) (rest : List Bytes)
    → AreTaken (defined imported) gs
    → is_name n ≡ true
    → defined imported n ≡ none
    → n ≢ bytes "help"
    → n ≢ bytes "h"
    → read_flags imported zap (arguments gs ++ (written n v ∷ rest)) ≡ err wrong_usage
read_flags-undefined imported zap gs n v rest taken name unknown no_help no_h =
    let refused = parse-undefined (defined imported) n v rest name unknown no_help no_h in
    read_flags_once imported zap _
    ∙ ap (parsed_on default_variables) (parse-arguments (defined imported) gs _ taken refused)
