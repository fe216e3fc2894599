-- ===== src/Agent/Arguments.antt =====
-- The command line of the agent, the same in cmd/agent/main.go and cmd/agent.go. The flags that
-- imported packages define are a parameter, as in Operator/Variables.
use tailpost.Base.{
  List, [], ◌∷◌, Option, some, Bytes, bytes, equal, if◌then◌else◌, Result, ok, ◌>>=◌,
}
use tailpost.Flags.{Exit, Flag, valued, Defined, parse}

pub record Arguments : Type 0 where
  pub config_path : Bytes
  pub metrics_addr : Bytes
  pub log_level : Bytes
  pub log_format : Bytes

abbrev pub default_arguments : Arguments
default_arguments = record {
  config_path = bytes "config.yaml";
  metrics_addr = bytes ":8080";
  log_level = bytes "info";
  log_format = bytes "json";
}

-- What a flag sets; those of imported packages set nothing here.
pub data Setting : Type 0 where
  set_config_path set_metrics_addr set_log_level set_log_format : Bytes → Setting
  set_other : Setting

unfoldable pub put : Setting → Arguments → Arguments
put (set_config_path v) a = record a { config_path = v }
put (set_metrics_addr v) a = record a { metrics_addr = v }
put (set_log_level v) a = record a { log_level = v }
put (set_log_format v) a = record a { log_format = v }
put set_other a = a

unfoldable pub put_all : List Setting → Arguments → Arguments
unfolding put
put_all [] a = a
put_all (s ∷ ss) a = put_all ss (put s a)

abbrev text_flag : (Bytes → Setting) → Option (Flag Setting)
text_flag set = some (valued (λ v. some (set v)))

-- The calls of `flag.String`.
unfoldable pub defined : Defined Setting → Defined Setting
defined imported n =
    if equal n (bytes "config")
    then text_flag set_config_path
    else if equal n (bytes "metrics-addr")
    then text_flag set_metrics_addr
    else if equal n (bytes "log-level")
    then text_flag set_log_level
    else if equal n (bytes "log-format")
    then text_flag set_log_format
    else imported n

-- `flag.Parse`.
unfoldable pub read_arguments : Defined Setting → List Bytes → Result Exit Arguments
unfolding defined put_all
read_arguments imported args =
    parse (defined imported) args >>= λ ss. ok (put_all ss default_arguments)
