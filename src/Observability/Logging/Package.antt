-- ===== src/Observability/Logging/Package.antt =====
-- The functions of internal/observability/logging/logger.go that use `DefaultLogger`, here the entry
-- `default_logger`. As in Logging, a message and its formatted form are one function.
use celery_to_go.Prelude.{ℕ, String}
use celery_to_go.Prelude.Dict.{Dict}
use celery_to_go.Prelude.Errors.{Error}
use celery_to_go.Observability.Logging
use celery_to_go.Observability.Logging.{Logrus}

module _ (logrus : Logrus) (default_logger : logrus.Entry) where
  open logrus use {World, Entry}

  abbrev pub debug : String → World → World
  debug message w = Logging.debug logrus message default_logger w

  abbrev pub info : String → World → World
  info message w = Logging.info logrus message default_logger w

  abbrev pub warn : String → World → World
  warn message w = Logging.warn logrus message default_logger w

  abbrev pub error : String → World → World
  error message w = Logging.error logrus message default_logger w

  abbrev pub fatal : String → World → ℕ × World
  fatal message w = Logging.fatal logrus message default_logger w

  abbrev pub with_field : String → String → Entry
  with_field key value = Logging.with_field logrus key value default_logger

  abbrev pub with_fields : Dict String → Entry
  with_fields fields = Logging.with_fields logrus fields default_logger

  abbrev pub with_error : Error → Entry
  with_error e = Logging.with_error logrus e default_logger

  -- `DefaultLogger` is a `LogrusLogger`, so the test of its type succeeds.
  abbrev pub set_level : String → World → World
  set_level level w = Logging.set_level logrus level default_logger w
