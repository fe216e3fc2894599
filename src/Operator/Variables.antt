-- ===== src/Operator/Variables.antt =====
-- cmd/operator/main.go: the flags and the variables that they set. The flags of imported packages and
-- those that zap's `BindFlags` adds are parameters.
pub mod Parses
use tailpost.Base.{
  ℕ, ◌*◌, Bool, true, false, not, List, [], ◌∷◌, Option, none, some, String, Bytes, bytes, equal,
  ◌==◌, if◌then◌else◌, Result, ok, err, ◌>>=◌, ◌>>◌, fail_if,
}
use tailpost.Flags.{Exit, helped, wrong_usage, Flag, switch, valued, Defined, parse}

-- The variables that the flags set: five texts and two switches.
pub data TextFlag : Type 0 where
  metrics_addr health_probe_addr telemetry_endpoint log_format log_level : TextFlag

pub data SwitchFlag : Type 0 where
  enable_leader_election enable_telemetry : SwitchFlag

pub record Variables : Type 0 where
  pub text : TextFlag → Bytes
  pub is_on : SwitchFlag → Bool

abbrev default_text : TextFlag → Bytes
default_text metrics_addr = bytes ":8080"
default_text health_probe_addr = bytes ":8081"
default_text telemetry_endpoint = bytes "http://localhost:4318"
default_text log_format = bytes "json"
default_text log_level = bytes "info"

abbrev pub default_variables : Variables
default_variables = record { text = default_text; is_on = λ f. false }

-- What a flag does: the flags of imported packages set nothing of these.
pub data Setting : Type 0 where
  set_text : TextFlag → Bytes → Setting
  set_switch : SwitchFlag → Bool → Setting
  set_other : Setting

abbrev number_of : TextFlag → ℕ
number_of metrics_addr = 0
number_of health_probe_addr = 1
number_of telemetry_endpoint = 2
number_of log_format = 3
number_of log_level = 4

abbrev pub same_text : TextFlag → TextFlag → Bool
same_text f g = number_of f == number_of g

abbrev pub same_switch : SwitchFlag → SwitchFlag → Bool
same_switch enable_leader_election enable_leader_election = true
same_switch enable_leader_election enable_telemetry = false
same_switch enable_telemetry enable_leader_election = false
same_switch enable_telemetry enable_telemetry = true

unfoldable pub put : Setting → Variables → Variables
put (set_text f v) o = record o { text = λ g. if same_text f g then v else o.text g }
put (set_switch f b) o = record o { is_on = λ g. if same_switch f g then b else o.is_on g }
put set_other o = o

unfoldable pub put_all : List Setting → Variables → Variables
unfolding put
put_all [] o = o
put_all (s ∷ ss) o = put_all ss (put s o)

abbrev text_flag : TextFlag → Option (Flag Setting)
text_flag f = some (valued (λ v. some (set_text f v)))

abbrev switch_flag : SwitchFlag → Option (Flag Setting)
switch_flag f = some (switch (λ b. set_switch f b))

-- The calls of `flag.StringVar` and `flag.BoolVar`.
unfoldable pub own_flag : Bytes → Option (Flag Setting)
own_flag n =
    if equal n (bytes "metrics-addr")
    then text_flag metrics_addr
    else if equal n (bytes "health-probe-addr")
    then text_flag health_probe_addr
    else if equal n (bytes "enable-leader-election")
    then switch_flag enable_leader_election
    else if equal n (bytes "enable-telemetry")
    then switch_flag enable_telemetry
    else if equal n (bytes "telemetry-endpoint")
    then text_flag telemetry_endpoint
    else if equal n (bytes "log-format")
    then text_flag log_format
    else if equal n (bytes "log-level")
    then text_flag log_level
    else none

abbrev pub or_else {ℓ} : {A : Type ℓ} → Option A → Option A → Option A
or_else (some x) other = some x
or_else none other = other

-- The flags that the first `Parse` knows, and those of the second, behind
-- `opts.BindFlags(flag.CommandLine)`.
unfoldable pub defined : Defined Setting → Defined Setting
unfolding own_flag
defined imported n = or_else (own_flag n) (imported n)

unfoldable pub bound : Defined Setting → Defined Setting → Defined Setting
unfolding own_flag
bound imported zap n = or_else (own_flag n) (or_else (imported n) (zap n))

-- The two calls of `flag.Parse`.
abbrev pub parsed_on : Variables → Result Exit (List Setting) → Result Exit Variables
parsed_on o (ok ss) = ok (put_all ss o)
parsed_on o (err e) = err e

unfoldable pub read_flags : Defined Setting → Defined Setting → List Bytes → Result Exit Variables
unfolding defined bound put_all
read_flags imported zap args = parsed_on default_variables (parse (defined imported) args) >>= λ o.
    parsed_on o (parse (bound imported zap) args)
