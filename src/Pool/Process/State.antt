-- ===== src/Pool/Process/State.antt =====
-- The state of `PythonProcess` in internal/pool/python/process.go, the operating system as a parameter, and
-- what `ExecuteTask` and `Ping` make of the lines that they read.
use celery_to_go.Prelude.{
  ℕ, String, Bool, true, false, Option, none, some, List, [], ◌∷◌, ◌==◌, if◌then◌else◌,
}
use celery_to_go.Prelude.Int.{ℤ, pos, ◌+ℤ◌}
use celery_to_go.Prelude.Errors.{Error, new, wrap, Reply, reply, failed}
use celery_to_go.Protocol.Payload.{ResultPayload, Protocol}
use celery_to_go.Pool.Types.{ProcessState, idle, error, ProcessStats}

pub record ProcessConfig : Type 0 where
  pub python_path : String
  pub worker_script_path : String
  pub env : List String
  pub task_timeout : ℤ

-- The fields of `exec.Cmd` that the program sets.
pub record Command : Type 0 where
  pub path : String
  pub script : String
  pub env : List String
  pub dir : String

pub record Process : Type 0 where
  pub id : String
  pub cmd : Command
  pub state : ProcessState
  pub stats : ProcessStats
  pub task_timeout : ℤ

-- How a reader of the standard output ends before the deadline: at the end of the stream, by a read
-- error, or not at all.
pub data End : Type 0 where
  eof : End
  broken : Error → End
  still_open : End

-- How a wait for the exit of a process ends.
pub data Exit : Type 0 where
  exited : Option Error → Exit
  deadline : Exit

-- os, os/exec, syscall, time and uuid. Processes are named by their identifiers. `read_lines`
-- gives the lines that the reader of the call gets before its deadline, and how it ends; `signal`
-- is `Kill` of the process, `signal_group` `syscall.Kill` of its group, if it has one.
pub record Os : Type 1 where
  pub World : Type 0
  pub now : World → ℕ
  pub new_uuid : World → String × World
  pub environ : World → List String
  pub executable_dir : World → Reply String
  pub python_path_variable : World → String
  pub stdin_pipe : String → World → Option Error × World
  pub stdout_pipe : String → World → Option Error × World
  pub stderr_pipe : String → World → Option Error × World
  pub spawn : Command → String → World → Reply ℤ × World
  pub write_stdin : String → List ℕ → World → Option Error × World
  pub read_lines : String → ℤ → World → (List (List ℕ) × End) × World
  pub wait_exit : String → World → Exit × World
  pub signal_group : String → World → World
  pub signal : String → World → World
  pub close_pipes : String → World → World

abbrev pub set_state : Process → ProcessState → Process
set_state p s = record p { state = s }

-- The loop over the lines: those that are no result, or another task's, are passed over.
unfoldable pub find_result : Protocol → String → List (List ℕ) → Option ResultPayload
find_result protocol task_id [] = none
find_result protocol task_id (line ∷ lines) =
    let rest = find_result protocol task_id lines in
    elim (protocol.decode_result line) [
      | reply result ↦ if result.task_id == task_id then some result else rest
      | failed _ ↦ rest
    ]

unfoldable pub find_pong : Protocol → List (List ℕ) → Bool
find_pong protocol [] = false
find_pong protocol (line ∷ lines) =
    let rest = find_pong protocol lines in
    elim (protocol.decode_pong line) [ reply _ ↦ true | failed _ ↦ rest ]

-- What the `select` of `ExecuteTask` sees first.
pub data Outcome : Type 0 where
  answered : ResultPayload → Outcome
  unreadable : Error → Outcome
  timed_out : Outcome

unfoldable pub outcome : Option ResultPayload → End → Outcome
outcome (some result) end = answered result
outcome none (broken e) = unreadable (wrap "error reading from stdout" e)
outcome none eof = timed_out
outcome none still_open = timed_out

-- The task is over, one way or the other.
abbrev pub clear_task : ProcessStats → ProcessState → ProcessStats
clear_task stats s = record stats { state = s; current_task_id = ""; current_task_start_time = 0 }

abbrev pub deadline_exceeded : Error
deadline_exceeded = new "context deadline exceeded"

unfoldable pub finish_task : ℕ → Outcome → Process → Reply ResultPayload × Process
finish_task now (answered result) p = (
  reply result,
  record p {
    state = idle;
    stats = record (clear_task p.stats idle) {
      tasks_processed = p.stats.tasks_processed +ℤ pos 1;
      last_task_time = now;
    };
  },
)
finish_task now (unreadable e) p =
    (failed e, record p { state = error; stats = clear_task p.stats error })
finish_task now timed_out p = (
  failed (wrap "task execution timed out" deadline_exceeded),
  record p { state = error; stats = clear_task p.stats error },
)
