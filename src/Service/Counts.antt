-- ===== src/Service/Counts.antt =====
-- How many messages of a group the program has, and where.
use celery_to_go.Prelude.{
  ap, ℕ, String, ◌≡◌, ◌+◌, ◌≤◌, ◌++◌, List, [], ◌∷◌, length, arith, ◌==◌, if◌then◌else◌,
  length-append, refl, eq_iff, inl, inr,
}
use celery_to_go.Prelude.Errors.{Reply, reply, Reply-cases}
use celery_to_go.Protocol.Payload.{TaskPayload}
use celery_to_go.Broker.Message.{Message}
use celery_to_go.Broker.Groups.Consistent.{of_group, of_group-append}
use celery_to_go.Worker.Tasks.{Delivery}
use celery_to_go.Worker.Tasks.Decoding.{decoded, process_tasks-decoded}
use celery_to_go.Worker.Tasks.Accounting.{after_poll}
use celery_to_go.Worker.Types.{Worker}
use celery_to_go.Service.{System, without_group}

-- The messages of the group among these.
unfoldable pub count : String → List Message → ℕ
count gid ms = length (of_group gid ms)

-- 1 if the message is of the group.
unfoldable pub one : String → Message → ℕ
one gid m = if m.message_group_id == gid then 1 else 0

-- The tasks of the group among these.
pub running : String → List Delivery → ℕ
running gid [] = 0
running gid (d ∷ ds) = one gid d.message + running gid ds

-- The messages of the group that `ReceiveMessages` has returned and whose
-- acknowledgement has not yet called SQS.
unfoldable pub held : String → System → ℕ
held gid s =
    count gid s.batch
    + running gid s.tasks.spawned
    + running gid s.tasks.executing
    + running gid s.tasks.answered

pub count-nil : (gid : String) → count gid [] ≡ 0
unfolding count of_group
count-nil gid = refl

pub count-cons :
    (gid : String) (m : Message) (ms : List Message) → count gid (m ∷ ms) ≡ one gid m + count gid ms
unfolding count of_group one
count-cons gid m ms = ground arith

pub count-append :
    (gid : String) (xs ys : List Message) → count gid (xs ++ ys) ≡ count gid xs + count gid ys
unfolding count
count-append gid xs ys = rw (of_group-append gid xs ys, length-append) refl

pub count-without_group :
    (gid j : String) (ms : List Message)
    → count j (without_group gid ms) ≡ (if gid == j then 0 else count j ms)
unfolding without_group one
count-without_group gid j [] = ground (arith, count-nil j)
count-without_group gid j (m ∷ ms) = ground (
  arith,
  count-cons j m ms,
  count-cons j m (without_group gid ms),
  count-without_group gid j ms,
  eq_iff gid j,
  eq_iff m.message_group_id gid,
  eq_iff m.message_group_id j,
)

pub running-nil : (gid : String) → running gid [] ≡ 0
unfolding running
running-nil gid = refl

pub running-cons :
    (gid : String) (d : Delivery) (ds : List Delivery)
    → running gid (d ∷ ds) ≡ one gid d.message + running gid ds
unfolding running
running-cons gid d ds = refl

pub running-pick :
    (gid : String) (before after : List Delivery) (d : Delivery)
    → running gid (before ++ d ∷ after) ≡ one gid d.message + running gid (before ++ after)
unfolding running
running-pick gid [] after d = refl
running-pick gid (x ∷ before) after d = omega (arith, running-pick gid before after d)

pub running-append :
    (gid : String) (xs ys : List Delivery)
    → running gid (xs ++ ys) ≡ running gid xs + running gid ys
unfolding running
running-append gid [] ys = omega arith
running-append gid (x ∷ xs) ys = omega (arith, running-append gid xs ys)

pub running-decoded :
    (decode_task : List ℕ → Reply TaskPayload) (gid : String) (m : Message)
    → running gid (decoded decode_task (m ∷ [])) ≤ one gid m
unfolding running decoded
running-decoded decode_task gid m = elim (Reply-cases (decode_task m.body)) [
  | inr (e, bad) ↦ rw (bad, running, decoded) (omega arith)
  | inl (payload, good) ↦ rw (good, running, decoded) (omega arith)
]

-- The tasks of a group that one of the three counts holds, before and after a goroutine goes on.
module _ (gid : String) (s : System) (d : Delivery) (before after : List Delivery) where
  pub held-begin :
      (worker : Worker)
      → s.tasks.spawned ≡ before ++ d ∷ after
      → held gid (record s {
        tasks = record s.tasks {
          worker = worker;
          spawned = before ++ after;
          executing = d ∷ s.tasks.executing;
        };
      })
        ≡ held gid s
  unfolding held
  held-begin worker e = omega (
    arith,
    ap (running gid) e,
    running-pick gid before after d,
    running-cons gid d s.tasks.executing,
  )

  pub held-finish :
      (worker : Worker)
      → s.tasks.executing ≡ before ++ d ∷ after
      → held gid (record s {
        tasks = record s.tasks {
          worker = worker;
          executing = before ++ after;
          answered = d ∷ s.tasks.answered;
        };
      })
        ≡ held gid s
  unfolding held
  held-finish worker e = omega (
    arith,
    ap (running gid) e,
    running-pick gid before after d,
    running-cons gid d s.tasks.answered,
  )

  pub held-delete :
      (acknowledged unacknowledged : List Message) (releasing : List String)
      → s.tasks.answered ≡ before ++ d ∷ after
      → held gid (record s {
        tasks = record s.tasks {
          answered = before ++ after;
          acknowledged = acknowledged;
          unacknowledged = unacknowledged;
        };
        releasing = releasing;
      })
          + one gid d.message
        ≡ held gid s
  unfolding held
  held-delete acknowledged unacknowledged releasing e =
      omega (arith, ap (running gid) e, running-pick gid before after d)

pub held-hand :
    (decode_task : List ℕ → Reply TaskPayload) (gid : String) (s : System) (now : ℕ) (m : Message)
    (ms : List Message)
    → s.batch ≡ m ∷ ms
    → held gid
        (record s { batch = ms; tasks = after_poll decode_task now (reply (m ∷ [])) s.tasks })
      ≤ held gid s
unfolding held
held-hand decode_task gid s now m ms e =
    rw (process_tasks-decoded decode_task now (m ∷ []) s.tasks.worker) (
      omega (
        arith,
        running-append gid s.tasks.spawned (decoded decode_task (m ∷ [])),
        running-decoded decode_task gid m,
        ap (count gid) e,
        count-cons gid m ms,
      ))
