-- ===== src/Pool/Process.antt =====
-- `PythonProcess` of internal/pool/python/process.go. The operating system is a parameter; logging
-- and the mutexes are left out: each method is one action on the process and the outside world.
pub mod Execution
mod Examples
pub mod State
use Prim.Native.String
use celery_to_go.Prelude.{
  ℕ, ◌+◌, String, Bool, true, false, not, Option, none, some, List, [], ◌∷◌, ◌++◌, ltb, length,
  ◌==◌, if◌then◌else◌,
}
use celery_to_go.Prelude.Int.{ℤ, pos, ◌+ℤ◌}
use celery_to_go.Prelude.Errors.{Error, new, wrap, Reply, reply, failed}
use celery_to_go.Protocol.Payload.{TaskPayload, ResultPayload, Stamp, Protocol}
use celery_to_go.Pool.Types.{
  ProcessState, idle, busy, starting, stopping, stopped, error, ProcessStats,
}
use celery_to_go.Pool.Process.State.{
  ProcessConfig, Command, Process, End, Exit, Os, set_state, find_result, find_pong, Outcome,
  outcome, clear_task, deadline_exceeded, finish_task, eof, broken, still_open, exited, deadline,
  answered, unreadable, timed_out,
}

module _ (os : Os) where
  open os use {
    World, now, new_uuid, environ, executable_dir, python_path_variable, stdin_pipe, stdout_pipe,
    stderr_pipe, spawn, write_stdin, read_lines, wait_exit, signal_group, signal, close_pipes,
  }

  make_process : ProcessConfig → String → String → World → Process
  make_process config id dir w = record {
    id = id;
    cmd = record {
      path = if config.python_path == "" then "python" else config.python_path;
      script = config.worker_script_path;
      env =
          (if ltb 0 (length config.env) then environ w ++ config.env else environ w)
          ++ (String.◌++◌ "CELERY_GO_PROCESS_ID=" id)
            ∷ (String.◌++◌ "PYTHONPATH="
                (String.◌++◌ dir (String.◌++◌ ":" (python_path_variable w))))
            ∷ [];
      dir = dir;
    };
    state = starting;
    stats = record {
      pid = pos 0;
      state = starting;
      start_time = now w;
      tasks_processed = pos 0;
      last_task_time = 0;
      current_task_id = "";
      current_task_start_time = 0;
    };
    task_timeout = config.task_timeout;
  }

  unfoldable pub new_python_process : ProcessConfig → World → Reply Process × World
  unfolding make_process
  new_python_process config w =
      let (id, w₁) = new_uuid w in
      elim (executable_dir w₁) [
        | reply dir ↦ (reply (make_process config id dir w₁), w₁)
        | failed e ↦ (failed (wrap "failed to get executable path" e), w₁)
      ]

  open_pipes : String → World → Option Error × World
  open_pipes id w =
      let (e₁, w₁) = stdin_pipe id w in
      let (e₂, w₂) = stdout_pipe id w₁ in
      let (e₃, w₃) = stderr_pipe id w₂ in
      elim e₁ [
        | some e ↦ (some (wrap "failed to create stdin pipe" e), w₁)
        | none ↦ elim e₂ [
          | some e ↦ (some (wrap "failed to create stdout pipe" e), w₂)
          | none ↦ elim e₃ [
            | some e ↦ (some (wrap "failed to create stderr pipe" e), w₃)
            | none ↦ (none, w₃)
          ]
        ]
      ]

  unfoldable pub start : Process → World → Option Error × Process × World
  unfolding open_pipes
  start p w =
      let (e, w₁) = open_pipes p.id w in
      let (r, w₂) = spawn p.cmd p.id w₁ in
      elim e [
        | some e' ↦ (some e', p, w₁)
        | none ↦ elim r [
          | failed e' ↦ (some (wrap "failed to start Python process" e'), p, w₂)
          | reply pid ↦ (
            none,
            record p { state = idle; stats = record p.stats { pid = pid; state = idle } },
            w₂,
          )
        ]
      ]

  stamp : World → Stamp × World
  stamp w = let (id, w') = new_uuid w in (record { message_id = id; timestamp = now w' }, w')

  newline : List ℕ → List ℕ
  newline line = line ++ 10 ∷ []

  send_stop : Protocol → String → World → World
  unfolding stamp newline
  send_stop protocol id w =
      let (s, w₁) = stamp w in
      elim (protocol.encode_stop s) [
        | reply line ↦ (write_stdin id (newline line) w₁).1
        | failed _ ↦ w₁
      ]

  kill : String → World → World
  kill id w = signal id (signal_group id w)

  stop_gracefully : Protocol → String → World → World
  unfolding send_stop kill
  stop_gracefully protocol id w =
      let (e, w') = wait_exit id (send_stop protocol id w) in
      elim e [ exited _ ↦ w' | deadline ↦ kill id w' ]

  -- `Stop` logs its failures and returns nil.
  unfoldable pub stop : Protocol → Bool → Process → World → Option Error × Process × World
  unfolding stop_gracefully kill
  stop protocol graceful p w =
      let w₁ = if graceful then stop_gracefully protocol p.id w else kill p.id w in
      (
        none,
        record p { state = stopped; stats = record p.stats { state = stopped } },
        close_pipes p.id w₁,
      )

  await_task : Protocol → TaskPayload → Process → World → Reply ResultPayload × Process × World
  unfolding find_result outcome finish_task
  await_task protocol task p w =
      let (r, w') = read_lines p.id p.task_timeout w in
      let (result, p') =
        finish_task (now w') (outcome (find_result protocol task.task_id r.0) r.1) p in
      (result, p', w')

  -- A task that cannot be encoded or written returns at once, with the process still busy.
  unfoldable pub execute_task :
      Protocol → TaskPayload → Process → World → Reply ResultPayload × Process × World
  unfolding stamp newline await_task
  execute_task protocol task p w =
      let p₁ = record p {
        state = busy;
        stats = record p.stats {
          state = busy;
          current_task_id = task.task_id;
          current_task_start_time = now w;
        };
      } in
      let (s, w₁) = stamp w in
      elim (protocol.encode_task s task) [
        | failed e ↦ (failed (wrap "failed to encode task" e), p₁, w₁)
        | reply line ↦
            let (e, w₂) = write_stdin p.id (newline line) w₁ in
            elim e [
              | some e' ↦ (failed (wrap "failed to send task to Python process" e'), p₁, w₂)
              | none ↦ await_task protocol task p₁ w₂
            ]
      ]

  await_pong : Protocol → String → World → Option Error × World
  unfolding find_pong
  await_pong protocol id w =
      let (r, w') = read_lines id (pos 5_000_000_000) w in
      (
        if find_pong protocol r.0 then none else elim r.1 [
          | broken e ↦ some (wrap "error reading from stdout" e)
          | _ ↦ some (wrap "ping timed out" deadline_exceeded)
        ],
        w',
      )

  unfoldable pub ping : Protocol → Process → World → Option Error × World
  unfolding stamp newline await_pong
  ping protocol p w =
      let (s, w₁) = stamp w in
      elim (protocol.encode_ping s) [
        | failed e ↦ (some (wrap "failed to encode ping" e), w₁)
        | reply line ↦
            let (e, w₂) = write_stdin p.id (newline line) w₁ in
            elim e [
              | some e' ↦ (some (wrap "failed to send ping to Python process" e'), w₂)
              | none ↦ await_pong protocol p.id w₂
            ]
      ]
