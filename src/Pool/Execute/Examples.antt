-- ===== src/Pool/Execute/Examples.antt =====
-- The theorem on the calls at a concrete pool.
use celery_to_go.Prelude.{◌≡◌, refl}
use celery_to_go.Prelude.Int.{pos}
use celery_to_go.Pool.Samples.{one_idle}
use celery_to_go.Pool.Execute.{stats}

one_process : (stats one_idle).total_processes ≡ pos 1
unfolding stats
one_process = refl
