-- ===== src/Flags.antt =====
-- The command line of the three programs under cmd/: `flag.Parse` of Go's standard library, as far as
-- they use it, on switches and on flags with a text. `flag.CommandLine` ends the process on an error.
pub mod Again
pub mod Undefined
use tailpost.Base.{
  Bool, true, false, not, ◌||◌, List, [], ◌∷◌, Option, none, some, String, Bytes, bytes, equal,
  ◌==◌, if◌then◌else◌, Result, ok, err,
}

-- With status 0 after `-help`, with status 2 after an error.
pub data Exit : Type 0 where
  helped wrong_usage : Exit

-- What a flag does with its value; a text that `Set` refuses is `none`.
pub data Flag (S : Type 0) : Type 0 where
  switch : (Bool → S) → Flag S
  valued : (Bytes → Option S) → Flag S

-- `strconv.ParseBool`.
abbrev is_one_of : Bytes → List String → Bool
is_one_of v [] = false
is_one_of v (t ∷ ts) = equal v (bytes t) || is_one_of v ts

unfoldable pub parse_bool : Bytes → Option Bool
parse_bool v =
    if is_one_of v ("1" ∷ "t" ∷ "T" ∷ "TRUE" ∷ "true" ∷ "True" ∷ [])
    then some true
    else if is_one_of v ("0" ∷ "f" ∷ "F" ∷ "FALSE" ∷ "false" ∷ "False" ∷ [])
    then some false
    else none

-- The name, and the value behind the first "=".
unfoldable pub split_value : Bytes → Bytes × Option Bytes
split_value [] = ([], none)
split_value (c ∷ cs) =
    let rest = split_value cs in if c == b'=' then ([], some cs) else (c ∷ rest.0, rest.1)

-- An argument: where the flags end, a wrong spelling, or a name and maybe a value.
pub data Argument : Type 0 where
  flags_end misspelt : Argument
  named : Bytes → Option Bytes → Argument

unfoldable pub named_of : Bytes → Argument
unfolding split_value
named_of [] = misspelt
named_of (c ∷ cs) =
    if c == b'-' || c == b'='
    then misspelt
    else (let (name, value) = split_value (c ∷ cs) in named name value)

unfoldable pub classify : Bytes → Argument
unfolding named_of
classify [] = flags_end
classify (c ∷ []) = flags_end
classify (c ∷ d ∷ []) =
    if not (c == b'-') then flags_end else if d == b'-' then flags_end else named_of (d ∷ [])
classify (c ∷ d ∷ e ∷ rest) =
    if not (c == b'-')
    then flags_end
    else if d == b'-'
    then named_of (e ∷ rest)
    else named_of (d ∷ e ∷ rest)

-- What one argument comes to: with `takes_two` the next one is its value.
pub data Step (S : Type 0) : Type 0 where
  stops : Step S
  fails : Exit → Step S
  takes_one takes_two : S → Step S

abbrev pub Defined : Type 0 → Type 0
Defined S = Bytes → Option (Flag S)

module _ {S : Type 0} where
  abbrev accepted : (S → Step S) → Option S → Step S
  accepted take none = fails wrong_usage
  accepted take (some s) = take s

  -- A flag with the value behind its "=", and the next argument.
  unfoldable pub set_flag : Flag S → Option Bytes → Option Bytes → Step S
  unfolding parse_bool
  set_flag (switch f) none next = takes_one (f true)
  set_flag (switch f) (some v) next = elim (parse_bool v) [
    | none ↦ fails wrong_usage
    | some b ↦ takes_one (f b)
  ]
  set_flag (valued f) (some v) next = accepted takes_one (f v)
  set_flag (valued f) none none = fails wrong_usage
  set_flag (valued f) none (some v) = accepted takes_two (f v)

  -- What `formal[name]` gives, for a name.
  unfoldable pub set_found : Option (Flag S) → Bytes → Option Bytes → Option Bytes → Step S
  unfolding set_flag
  set_found (some f) name value next = set_flag f value next
  set_found none name value next =
      fails (if equal name (bytes "help") || equal name (bytes "h") then helped else wrong_usage)

  unfoldable pub set_argument : Defined S → Option Bytes → Argument → Step S
  unfolding set_found
  set_argument defined next flags_end = stops
  set_argument defined next misspelt = fails wrong_usage
  set_argument defined next (named name value) = set_found (defined name) name value next

  -- `parseOne`.
  unfoldable pub parse_one : Defined S → Bytes → Option Bytes → Step S
  unfolding classify set_argument
  parse_one defined arg next = set_argument defined next (classify arg)

  abbrev pub before : S → Result Exit (List S) → Result Exit (List S)
  before s (ok ss) = ok (s ∷ ss)
  before s (err e) = err e

  -- What follows an argument, given what the arguments behind it come to.
  abbrev pub follow : Step S → Result Exit (List S) → Result Exit (List S) → Result Exit (List S)
  follow stops one two = ok []
  follow (fails e) one two = err e
  follow (takes_one s) one two = before s one
  follow (takes_two s) one two = before s two

  -- `Parse`: the settings in the order in which they are made. What is left behind the flags is not
  -- looked at.
  unfoldable pub parse : Defined S → List Bytes → Result Exit (List S)
  unfolding parse_one
  parse defined [] = ok []
  parse defined (a ∷ []) = follow (parse_one defined a none) (ok []) (ok [])
  parse defined (a ∷ b ∷ rest) =
      let one = parse defined (b ∷ rest) in
      let two = parse defined rest in follow (parse_one defined a (some b)) one two
