-- ===== src/Startup/Flags.antt =====
-- cmd/main.go: the flags, with what package flag does with them. An argument is the name of a flag
-- with its value, if it has one; Startup.CommandLine has the split of the words into these.
pub mod Defaults
use cillion.Base.{
  ℕ, String, ◌==◌, string_eq, if◌then◌else◌, Bool, true, false, ◌||◌, Option, none, some, List, [],
  ◌∷◌,
}

pub record Flags : Type 0 where
  pub metrics_addr : String
  pub metrics_cert_path : String
  pub metrics_cert_name : String
  pub metrics_cert_key : String
  pub webhook_cert_path : String
  pub webhook_cert_name : String
  pub webhook_cert_key : String
  pub enable_leader_election : Bool
  pub probe_addr : String
  pub secure_metrics : Bool
  pub enable_http2 : Bool

abbrev pub default_flags : Flags
default_flags = record {
  metrics_addr = "0";
  metrics_cert_path = "";
  metrics_cert_name = "tls.crt";
  metrics_cert_key = "tls.key";
  webhook_cert_path = "";
  webhook_cert_name = "tls.crt";
  webhook_cert_key = "tls.key";
  enable_leader_election = false;
  probe_addr = ":8081";
  secure_metrics = true;
  enable_http2 = false;
}

abbrev pub Argument : Type 0
Argument = String × Option String

-- Package flag ends the process on an error with code 2 and on a call for help with code 0.
pub data ParseResult : Type 0 where
  parsed : Flags → ParseResult
  exits : ℕ → ParseResult

-- `strconv.ParseBool`
unfoldable pub parse_bool : String → Option Bool
parse_bool s =
    if s == "1" || s == "t" || s == "T" || s == "true" || s == "TRUE" || s == "True"
    then some true
    else if s == "0" || s == "f" || s == "F" || s == "false" || s == "FALSE" || s == "False"
    then some false
    else none

-- A Boolean flag may stand without a value.
unfoldable pub set_bool : Option String → (Bool → Flags) → ParseResult
unfolding parse_bool
set_bool none f = parsed (f true)
set_bool (some s) f = elim (parse_bool s) [ none ↦ exits 2 | some b ↦ parsed (f b) ]

abbrev pub set_string : Option String → (String → Flags) → ParseResult
set_string none f = exits 2
set_string (some s) f = parsed (f s)

-- The flags that zap and controller-runtime define are `other`: whether the argument is one of
-- them, with a value that it takes.
unfoldable pub set_flag : (Argument → Bool) → Argument → Flags → ParseResult
unfolding set_bool
set_flag other (name, value) flags =
    if name == "metrics-bind-address"
    then set_string value (λ s. record flags { metrics_addr = s })
    else if name == "health-probe-bind-address"
    then set_string value (λ s. record flags { probe_addr = s })
    else if name == "leader-elect"
    then set_bool value (λ b. record flags { enable_leader_election = b })
    else if name == "metrics-secure"
    then set_bool value (λ b. record flags { secure_metrics = b })
    else if name == "webhook-cert-path"
    then set_string value (λ s. record flags { webhook_cert_path = s })
    else if name == "webhook-cert-name"
    then set_string value (λ s. record flags { webhook_cert_name = s })
    else if name == "webhook-cert-key"
    then set_string value (λ s. record flags { webhook_cert_key = s })
    else if name == "metrics-cert-path"
    then set_string value (λ s. record flags { metrics_cert_path = s })
    else if name == "metrics-cert-name"
    then set_string value (λ s. record flags { metrics_cert_name = s })
    else if name == "metrics-cert-key"
    then set_string value (λ s. record flags { metrics_cert_key = s })
    else if name == "enable-http2"
    then set_bool value (λ b. record flags { enable_http2 = b })
    else if other (name, value)
    then parsed flags
    else if name == "help" || name == "h"
    then exits 0
    else exits 2

-- `flag.Parse`, from the values that the flags have so far.
unfoldable pub parse_from : (Argument → Bool) → List Argument → Flags → ParseResult
parse_from other [] flags = parsed flags
parse_from other (a ∷ args) flags = elim (set_flag other a flags) [
  | exits code ↦ exits code
  | parsed flags' ↦ parse_from other args flags'
]

unfoldable pub parse : (Argument → Bool) → List Argument → ParseResult
unfolding parse_from
parse other args = parse_from other args default_flags
