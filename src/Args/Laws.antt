-- ===== src/Args/Laws.antt =====
-- What the command line can say.
use iot_dashboard_flutter.Common.{
  ℕ, ◌^◌, ◌%◌, ◌<◌, Bool, true, false, str_instance, str_beq, if◌then◌else◌, List, [], ◌∷◌, ◌++◌,
  Str, str, ◌≡◌, refl, ap, ◌∙◌, arith,
}
use iot_dashboard_flutter.Common.Decimal.{to_string}
use iot_dashboard_flutter.Common.Decimal.Stoi.{stoi-to_string}
use iot_dashboard_flutter.Exn.{returns}
use iot_dashboard_flutter.Args.{
  Args, default_args, to_uint16, read_port, set_value, set_flag, parse_from, parse_args,
}

-- The ports fit 16 bits.
unfoldable pub HavePorts : Args → Type 0
HavePorts args = (args.http_port < 2 ^ 16) × (args.ws_port < 2 ^ 16)

flags : Args → List Str
flags args =
    (if args.serve then str "--serve" ∷ [] else []) ++ (if args.help then str "--help" ∷ [] else [])

values : Args → List Str
unfolding flags
values args =
    str "--port"
    ∷ to_string args.http_port
    ∷ str "--ws-port"
    ∷ to_string args.ws_port
    ∷ str "--db"
    ∷ args.db_path
    ∷ str "--mqtt-broker"
    ∷ args.mqtt_broker
    ∷ str "--log-level"
    ∷ args.log_level
    ∷ flags args

-- The arguments that say what `args` holds.
unfoldable pub render : Args → List Str
unfolding values flags
render args = (if args.verbose then str "--verbose" ∷ [] else []) ++ values args

port-read : (n : ℕ) → n < 2 ^ 16 → read_port (to_string n) ≡ returns n
unfolding read_port to_uint16
port-read n h = rw (stoi-to_string n (omega arith), read_port) (ap returns (omega arith))

-- A number that fits `int` is cut to 16 bits.
port_cut : (n : ℕ) → n < 2 ^ 31 → read_port (to_string n) ≡ returns (n % 2 ^ 16)
unfolding read_port to_uint16
port_cut n h = rw (stoi-to_string n (omega arith), read_port)

flags-parsed :
    (serve help : Bool) (args : Args)
    → parse_from
        (record args { serve = false; help = false })
        ((if serve then str "--serve" ∷ [] else []) ++ (if help then str "--help" ∷ [] else []))
      ≡ returns (record args { serve = serve; help = help })
unfolding parse_from set_value set_flag str str_beq
flags-parsed true true args = refl
flags-parsed true false args = refl
flags-parsed false true args = refl
flags-parsed false false args = refl

values-parsed :
    (rest : List Str) (args wanted : Args)
    → HavePorts wanted
    → parse_from args (
        str "--port"
        ∷ to_string wanted.http_port
        ∷ str "--ws-port"
        ∷ to_string wanted.ws_port
        ∷ str "--db"
        ∷ wanted.db_path
        ∷ str "--mqtt-broker"
        ∷ wanted.mqtt_broker
        ∷ str "--log-level"
        ∷ wanted.log_level
        ∷ rest)
      ≡ parse_from
          (record wanted { serve = args.serve; verbose = args.verbose; help = args.help })
          rest
unfolding parse_from set_value str str_beq HavePorts
values-parsed rest args wanted h = rw (port-read wanted.http_port h.0, port-read wanted.ws_port h.1)

parsed-verbose :
    (verbose : Bool) (args : Args)
    → HavePorts args
    → parse_from default_args ((if verbose then str "--verbose" ∷ [] else []) ++ values args)
      ≡ returns (record args { verbose = verbose })
unfolding values flags parse_from set_value set_flag default_args str str_beq
parsed-verbose true args h =
    values-parsed (flags args) (set_flag (str "--verbose") default_args) args h
    ∙ flags-parsed args.serve args.help (record args { verbose = true })
parsed-verbose false args h =
    values-parsed (flags args) default_args args h
    ∙ flags-parsed args.serve args.help (record args { verbose = false })

-- The arguments that `render` writes are parsed to what they were written from, where the ports fit 16
-- bits, whatever the program's name and the texts are.
pub parse_args-render :
    (program : Str) (args : Args)
    → HavePorts args
    → parse_args (program ∷ render args) ≡ returns args
unfolding parse_args render values
parse_args-render program args h = parsed-verbose args.verbose args h

-- Ports are cut and not refused: any two numbers that fit `int`, given as the ports, are parsed to what
-- they are modulo 2 ^ 16, with every other setting at its default.
pub parse_args-ports :
    (program : Str) (http ws : ℕ)
    → http < 2 ^ 31
    → ws < 2 ^ 31
    → parse_args (program ∷ str "--port" ∷ to_string http ∷ str "--ws-port" ∷ to_string ws ∷ [])
      ≡ returns (record default_args { http_port = http % 2 ^ 16; ws_port = ws % 2 ^ 16 })
unfolding parse_args parse_from set_value str str_beq
parse_args-ports program http ws h k = rw (port_cut http h, port_cut ws k)
