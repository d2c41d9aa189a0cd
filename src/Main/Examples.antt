-- ===== src/Main/Examples.antt =====
-- The theorems on the program at a concrete outside world, with one queue and no other flag.
use celery_to_go.Prelude.{String, ◌≡◌, ◌≢◌, refl, true, none, [], ◌∷◌, ◌==◌, arith, eq_iff}
use celery_to_go.Prelude.Errors.{reply, ok}
use celery_to_go.Broker.Config.{
  Broker, new_sqs_fifo_broker, ends_with_fifo, set_defaults, make_broker,
}
use celery_to_go.Broker.Samples.{sqs}
use celery_to_go.Pool.Samples.{linux, one_line, one_idle}
use celery_to_go.Observability.Samples.{last_level, otel, prometheus}
use celery_to_go.Observability.Logging.{info_level}
use celery_to_go.Main.Flags.{
  Config, Cli, goes_on, default_flags, parse_flags, check_flags, resolve_script,
}
use celery_to_go.Main.Flags.Checked.{IsChecked, parse_flags-IsChecked}
use celery_to_go.Main.Setup.{setup_broker, setup_worker, broker_config}
use celery_to_go.Main.Life.{Outside, Worlds, Program, returned, main, start_up}
use celery_to_go.Main.Life.Started.{Starts, start_up-Starts}
use celery_to_go.Main.Life.Shutdown.{main_never_returns}

abbrev flags : Config
flags = record default_flags { queue_url = "tasks.fifo" }

-- The only relative path is that of the default script.
abbrev cli : Cli
cli = record {
  parse = λ defaults. goes_on (record defaults { queue_url = "tasks.fifo" });
  is_abs = λ path. path == "/srv/worker_process.py";
  abs = λ path. reply "/srv/worker_process.py";
}

abbrev checked : Config
checked = record flags {
  worker_script_path = "/srv/worker_process.py";
  process_env = "HOME=/" ∷ [];
}

flags_parsed : parse_flags cli ("HOME=/" ∷ []) ≡ goes_on checked
unfolding parse_flags check_flags resolve_script
flags_parsed = refl

abs_makes_abs : (p a : String) → cli.abs p ≡ reply a → cli.is_abs a ≡ true
abs_makes_abs p a e = ground (arith, eq_iff a "/srv/worker_process.py")

parse_flags-IsChecked_example : IsChecked cli ("HOME=/" ∷ []) checked
parse_flags-IsChecked_example =
    parse_flags-IsChecked cli ("HOME=/" ∷ []) checked abs_makes_abs flags_parsed

abbrev batch_broker : Broker
batch_broker = make_broker (set_defaults (broker_config checked) "batch")

broker_made : setup_broker (λ region. none) checked ≡ ok batch_broker
unfolding setup_broker new_sqs_fifo_broker ends_with_fifo broker_config
broker_made = refl

abbrev outside : Outside
outside = record {
  os = linux;
  client = sqs;
  prometheus = prometheus;
  otel = otel;
  logrus = last_level;
  protocol = one_line;
  cli = cli;
  load_config = λ region. none;
  default_entry = tt;
  background = tt;
}

abbrev worlds : Worlds outside
worlds = record { os = 1000; client = 1000; prometheus = 0; otel = []; logrus = info_level }

start_up-Starts_example : Starts outside (start_up outside worlds)
start_up-Starts_example = start_up-Starts outside worlds

-- The program while its pool has one process.
abbrev serving : Program outside
serving = record {
  config = checked;
  broker = batch_broker;
  pool = one_idle;
  worker = setup_worker checked;
  metrics = none;
  tracer = none;
  worlds = worlds;
}

main_never_returns_example :
    main outside ("p" ∷ []) ("p" ∷ []) true (λ p. serving) worlds ≢ returned
main_never_returns_example =
    main_never_returns outside ("p" ∷ []) ("p" ∷ []) true (λ p. serving) worlds
