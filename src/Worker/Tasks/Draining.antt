-- ===== src/Worker/Tasks/Draining.antt =====
-- The goroutines of the worker after its last round of the loop: they begin, finish and acknowledge
-- in any order.
use celery_to_go.Prelude.{ℕ, suc, ◌+◌, ◌*◌, ◌≡◌, List, [], length}
use celery_to_go.Prelude.Errors.{Reply}
use celery_to_go.Protocol.Payload.{TaskPayload}
use celery_to_go.Worker.Tasks.Accounting.{System, Step, poll}

-- The sections that the goroutines still have to run.
unfoldable pub load : System → ℕ
load s = 3 * length s.spawned + 2 * length s.executing + length s.answered

pub record IsDrained (s : System) : Type 0 where
  pub none_spawned : s.spawned ≡ []
  pub none_executing : s.executing ≡ []
  pub none_answered : s.answered ≡ []

module _ (decode_task : List ℕ → Reply TaskPayload) where
  -- A step of a goroutine, which is none of the loop.
  unfoldable pub IsWork : {s t : System} → Step decode_task s t → Type 0
  IsWork (poll now answer) = ⊥
  IsWork _ = Unit

  -- So many steps of the goroutines.
  pub data Works : System → ℕ → System → Type 0 where
    idle : {s : System} → Works s 0 s
    work :
        {s t u : System} {n : ℕ} (st : Step decode_task s t)
        → IsWork st
        → Works t n u
        → Works s (suc n) u
