-- ===== src/Observability/Logging/Levels.antt =====
-- The level that a text names.
use celery_to_go.Prelude.{String, ◌≡◌, ◌≢◌, ◌↔◌, refl, arith, eq_iff}
use celery_to_go.Observability.Logging.{
  Level, level_of, debug_level, info_level, warn_level, error_level, fatal_level,
}

abbrev level_name : Level → String
level_name debug_level = "debug"
level_name info_level = "info"
level_name warn_level = "warn"
level_name error_level = "error"
level_name fatal_level = "fatal"

-- Every level but the one of "info" is set by its own name and by no other text: what names no level
-- sets the level of "info".
pub level_of_iff : (l : Level) (s : String) → l ≢ info_level → (level_of s ≡ l) ↔ (s ≡ level_name l)
unfolding level_of
level_of_iff debug_level s h = (λ e. ground (arith, eq_iff s "debug"), λ e. rw e refl)
level_of_iff info_level s h = elim (h refl) [ ]
level_of_iff warn_level s h = (λ e. ground (arith, eq_iff s "warn"), λ e. rw e refl)
level_of_iff error_level s h = (λ e. ground (arith, eq_iff s "error"), λ e. rw e refl)
level_of_iff fatal_level s h = (λ e. ground (arith, eq_iff s "fatal"), λ e. rw e refl)
