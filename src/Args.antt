-- ===== src/Args.antt =====
-- src/main.cpp: the arguments of the command line. `m_configPath` is never set, and is left out.
pub mod Laws
pub mod Run
use iot_dashboard_flutter.Common.{
  ℕ, ◌-◌, ◌%◌, ◌^◌, Bool, true, false, ◌||◌, ◌==◌, str_instance, if◌then◌else◌, List, [], ◌∷◌, ◌++◌,
  Option, none, some, Str, str,
}
use iot_dashboard_flutter.Common.Decimal.Stoi.{Signed, stoi}
use iot_dashboard_flutter.Exn.{Exn, returns, throws, ◌>>=◌}

pub record Args : Type 0 where
  pub http_port : ℕ
  pub ws_port : ℕ
  pub db_path : Str
  pub mqtt_broker : Str
  pub log_level : Str
  pub serve : Bool
  pub verbose : Bool
  pub help : Bool

unfoldable pub default_args : Args
default_args = record {
  http_port = 8080;
  ws_port = 8081;
  db_path = str "./data/iot.db";
  mqtt_broker = str "tcp://localhost:1883";
  log_level = str "info";
  serve = false;
  verbose = false;
  help = false;
}

-- `static_cast< uint16_t >` of an `int`
unfoldable pub to_uint16 : Signed → ℕ
to_uint16 (false, n) = n % 2 ^ 16
to_uint16 (true, n) = (2 ^ 16 - n % 2 ^ 16) % 2 ^ 16

-- The port of a text, which `stoi` may refuse.
unfoldable pub read_port : Str → Exn ℕ
unfolding to_uint16
read_port text = elim (stoi text) [ none ↦ throws | some n ↦ returns (to_uint16 n) ]

-- The options that take the next argument, where there is one; `none` is another argument.
unfoldable pub set_value : Str → Str → Args → Option (Exn Args)
unfolding read_port
set_value arg value args =
    if arg == str "--port"
    then some (read_port value >>= λ port. returns (record args { http_port = port }))
    else if arg == str "--ws-port"
    then some (read_port value >>= λ port. returns (record args { ws_port = port }))
    else if arg == str "--db"
    then some (returns (record args { db_path = value }))
    else if arg == str "--mqtt-broker"
    then some (returns (record args { mqtt_broker = value }))
    else if arg == str "--log-level"
    then some (returns (record args { log_level = value }))
    else none

-- The options without a value; any other argument is passed over.
unfoldable pub set_flag : Str → Args → Args
set_flag arg args =
    if arg == str "--help" || arg == str "-h"
    then record args { help = true }
    else if arg == str "--serve"
    then record args { serve = true }
    else if arg == str "--verbose" || arg == str "-v"
    then record args { verbose = true; log_level = str "debug" }
    else args

-- The loop over the arguments.
unfoldable pub parse_from : Args → List Str → Exn Args
unfolding set_value set_flag
parse_from args [] = returns args
parse_from args (arg ∷ []) = returns (set_flag arg args)
parse_from args (arg ∷ value ∷ rest) = elim (set_value arg value args) [
  | none ↦ parse_from (set_flag arg args) (value ∷ rest)
  | some set ↦ set >>= λ changed. parse_from changed rest
]

-- The first argument is the program's name.
unfoldable pub parse_args : List Str → Exn Args
unfolding default_args parse_from
parse_args [] = returns default_args
parse_args (program ∷ arguments) = parse_from default_args arguments
