-- ===== src/Pool/Process/Examples.antt =====
-- The theorem on `ExecuteTask` at a concrete operating system and protocol: the process answers with
-- another task's result and then its own.
use celery_to_go.Prelude.{String, ℕ, eqb, if◌then◌else◌, ◌≡◌, refl, none, some, List, [], ◌∷◌}
use celery_to_go.Prelude.Int.{pos}
use celery_to_go.Prelude.Errors.{reply, failed, new}
use celery_to_go.Protocol.Payload.{TaskPayload, ResultPayload, Protocol, null, nil, no_fields}
use celery_to_go.Pool.Types.{idle}
use celery_to_go.Pool.Process.State.{Process, Os, still_open, exited, find_result}
use celery_to_go.Pool.Process.{execute_task}
use celery_to_go.Pool.Process.Execution.{Executed, execute_task-Executed}

abbrev done_as : String → ResultPayload
done_as id = record {
  task_id = id;
  status = "success";
  result = null;
  error = "";
  traceback = "";
  runtime = 0;
  memory_used = pos 0;
}

abbrev add : TaskPayload
add = record {
  task_name = "add";
  task_id = "t";
  args = nil;
  kwargs = no_fields;
  retries = pos 0;
  queue = "";
}

abbrev lines : List (List ℕ)
lines = [] ∷ (1 ∷ []) ∷ (2 ∷ []) ∷ []

abbrev two_answers : Protocol
two_answers = record {
  encode_task = λ s t. reply (1 ∷ []);
  decode_result = λ line. elim line [
    | [] ↦ failed (new "unexpected end of JSON input")
    | b ∷ bs ↦ reply (done_as (if eqb b 1 then "s" else "t"))
  ];
  encode_ping = λ s. reply (2 ∷ []);
  decode_pong = λ line. reply tt;
  encode_stop = λ s. reply (3 ∷ []);
}

-- The state of the outside world is the clock.
abbrev linux : Os
linux = record {
  World = ℕ;
  now = λ w. w;
  new_uuid = λ w. ("u", w);
  environ = λ w. [];
  executable_dir = λ w. reply "/";
  python_path_variable = λ w. "";
  stdin_pipe = λ id w. (none, w);
  stdout_pipe = λ id w. (none, w);
  stderr_pipe = λ id w. (none, w);
  spawn = λ cmd id w. (reply (pos 42), w);
  write_stdin = λ id line w. (none, w);
  read_lines = λ id timeout w. ((lines, still_open), w);
  wait_exit = λ id w. (exited none, w);
  signal_group = λ id w. w;
  signal = λ id w. w;
  close_pipes = λ id w. w;
}

abbrev process : Process
process = record {
  id = "p";
  cmd = record { path = "python"; script = "worker_process.py"; env = []; dir = "/" };
  state = idle;
  stats = record {
    pid = pos 41;
    state = idle;
    start_time = 900;
    tasks_processed = pos 3;
    last_task_time = 950;
    current_task_id = "";
    current_task_start_time = 0;
  };
  task_timeout = pos 300;
}

own_result : find_result two_answers "t" lines ≡ some (done_as "t")
unfolding find_result
own_result = refl

execute_task-Executed_example :
    let r = execute_task linux two_answers add process 1000 in Executed add (pos 3) r.1 r.0
execute_task-Executed_example = execute_task-Executed linux two_answers add process 1000
