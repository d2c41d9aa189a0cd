-- ===== src/Pool/Execute/Counting.antt =====
-- How a call of `ExecuteTask` ends.
use celery_to_go.Protocol.Payload.{Protocol}
