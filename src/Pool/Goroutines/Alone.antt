-- ===== src/Pool/Goroutines/Alone.antt =====
-- The functions of Pool/Manager as moves of one goroutine, with no other in between.
use celery_to_go.Prelude.Dict
use celery_to_go.Protocol.Payload.{Protocol}
use celery_to_go.Pool.Process.State.{Process}
