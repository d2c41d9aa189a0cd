-- ===== src/Pool/Samples.antt =====
-- Test data of the pool: a pool with one idle process, which answers every task with the same line.
use celery_to_go.Prelude.{ℕ, ◌≡◌, refl, false, some, none, [], ◌∷◌, arith}
use celery_to_go.Prelude.Int.{pos}
use celery_to_go.Prelude.Dict
use celery_to_go.Prelude.Errors.{reply}
use celery_to_go.Protocol.Payload.{TaskPayload, ResultPayload, Protocol, null, nil, no_fields}
use celery_to_go.Pool.Types.{PoolConfig, ProcessStats, idle}
use celery_to_go.Pool.Process.State.{Process, Os, still_open, exited}
use celery_to_go.Pool.Config.{ProcessPool}
use celery_to_go.Pool.Manager.Bounds.{IsBounded}

abbrev pub done : ResultPayload
done = record {
  task_id = "t";
  status = "success";
  result = null;
  error = "";
  traceback = "";
  runtime = 0;
  memory_used = pos 0;
}

abbrev pub task : TaskPayload
task = record {
  task_name = "add";
  task_id = "t";
  args = nil;
  kwargs = no_fields;
  retries = pos 0;
  queue = "";
}

abbrev pub one_line : Protocol
one_line = record {
  encode_task = λ s t. reply (1 ∷ []);
  decode_result = λ line. reply done;
  encode_ping = λ s. reply (2 ∷ []);
  decode_pong = λ line. reply tt;
  encode_stop = λ s. reply (3 ∷ []);
}

-- The state of the outside world is the clock.
abbrev pub linux : Os
linux = record {
  World = ℕ;
  now = λ w. w;
  new_uuid = λ w. ("u", w);
  environ = λ w. [];
  executable_dir = λ w. reply "/";
  python_path_variable = λ w. "";
  stdin_pipe = λ id w. (none, w);
  stdout_pipe = λ id w. (none, w);
  stderr_pipe = λ id w. (none, w);
  spawn = λ cmd id w. (reply (pos 42), w);
  write_stdin = λ id line w. (none, w);
  read_lines = λ id timeout w. (((4 ∷ []) ∷ [], still_open), w);
  wait_exit = λ id w. (exited none, w);
  signal_group = λ id w. w;
  signal = λ id w. w;
  close_pipes = λ id w. w;
}

abbrev pub config : PoolConfig
config = record {
  min_processes = pos 1;
  max_processes = pos 1;
  max_tasks_per_process = pos 100;
  max_idle_time = pos 300;
  max_process_age = pos 3600;
  process_startup_timeout = pos 30;
  process_shutdown_timeout = pos 30;
  task_execution_timeout = pos 300;
  process_env = [];
  python_path = "python";
  worker_script_path = "worker_process.py";
}

abbrev pub idle_stats : ProcessStats
idle_stats = record {
  pid = pos 41;
  state = idle;
  start_time = 900;
  tasks_processed = pos 3;
  last_task_time = 950;
  current_task_id = "";
  current_task_start_time = 0;
}

abbrev pub idle_process : Process
idle_process = record {
  id = "p";
  cmd = record { path = "python"; script = "worker_process.py"; env = []; dir = "/" };
  state = idle;
  stats = idle_stats;
  task_timeout = pos 300;
}

abbrev pub one_idle : ProcessPool
one_idle = record {
  config = config;
  processes = Dict.put Dict.empty "p" idle_process;
  idle_processes = "p" ∷ [];
  stats = record {
    total_processes = pos 1;
    idle_processes = pos 1;
    busy_processes = pos 0;
    starting_processes = pos 0;
    stopping_processes = pos 0;
    total_tasks_processed = pos 0;
    process_stats = Dict.put Dict.empty "p" idle_stats;
  };
  is_shut_down = false;
}

pub process_found : Dict.get one_idle.processes "p" ≡ some idle_process
unfolding Dict.get Dict.put Dict.empty
process_found = refl

pub one_idle-IsBounded : IsBounded one_idle
unfolding Dict.size Dict.put Dict.empty
one_idle-IsBounded = omega arith
