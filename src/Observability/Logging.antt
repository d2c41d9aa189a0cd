-- ===== src/Observability/Logging.antt =====
-- internal/observability/logging/logger.go. Logrus is a parameter. The arguments of a message come in
-- as the text that Go makes of them, so `Debug` and `Debugf` are one function, and the values of
-- fields as their text. `DefaultLogger` is a `LogrusLogger`, which is its entry, and never changes.
pub mod Levels
pub mod Package
use celery_to_go.Prelude.{ℕ, String, Option, none, some, ◌==◌, if◌then◌else◌}
use celery_to_go.Prelude.Dict
use celery_to_go.Prelude.Dict.{Dict}
use celery_to_go.Prelude.Errors.{Error}

-- The levels of Logrus that the program names.
pub data Level : Type 0 where
  debug_level info_level warn_level error_level fatal_level : Level

-- What the program uses of Logrus: entries share the level of the logger that they come from.
pub record Logrus : Type 1 where
  pub World : Type 0
  pub Entry : Type 0
  pub new_entry : World → Entry × World
  pub log : Level → String → Entry → World → World
  pub entry_with_fields : Dict String → Entry → Entry
  pub entry_with_error : Error → Entry → Entry
  pub set_entry_level : Level → Entry → World → World

unfoldable pub level_of : String → Level
level_of level =
    if level == "debug"
    then debug_level
    else if level == "info"
    then info_level
    else if level == "warn"
    then warn_level
    else if level == "error"
    then error_level
    else if level == "fatal"
    then fatal_level
    else info_level

module _ (logrus : Logrus) where
  open logrus use {
    World, Entry, new_entry, log, entry_with_fields, entry_with_error, set_entry_level,
  }

  abbrev pub new_logrus_logger : World → Entry × World
  new_logrus_logger w = new_entry w

  abbrev pub debug : String → Entry → World → World
  debug message l w = log debug_level message l w

  abbrev pub info : String → Entry → World → World
  info message l w = log info_level message l w

  abbrev pub warn : String → Entry → World → World
  warn message l w = log warn_level message l w

  abbrev pub error : String → Entry → World → World
  error message l w = log error_level message l w

  -- The message, and the code with which the program exits.
  abbrev pub fatal : String → Entry → World → ℕ × World
  fatal message l w = (1, log fatal_level message l w)

  abbrev pub with_field : String → String → Entry → Entry
  with_field key value l = entry_with_fields (Dict.put Dict.empty key value) l

  abbrev pub with_fields : Dict String → Entry → Entry
  with_fields fields l = entry_with_fields fields l

  abbrev pub with_error : Error → Entry → Entry
  with_error e l = entry_with_error e l

  unfoldable pub set_level : String → Entry → World → World
  unfolding level_of
  set_level level l w = set_entry_level (level_of level) l w
