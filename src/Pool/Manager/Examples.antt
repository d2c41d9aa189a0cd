-- ===== src/Pool/Manager/Examples.antt =====
-- The theorems on the pool at a concrete pool, operating system and protocol.
use celery_to_go.Prelude.{◌≡◌, refl, true, some, [], ◌∷◌, if◌then◌else◌}
use celery_to_go.Prelude.Int.{pos, ◌+ℤ◌, ◌-ℤ◌}
use celery_to_go.Prelude.Dict
use celery_to_go.Prelude.Errors.{ok, reply}
use celery_to_go.Pool.Types.{ProcessStats, idle, stopped}
use celery_to_go.Pool.Process.{execute_task, stop}
use celery_to_go.Pool.Config.{ProcessPool}
use celery_to_go.Pool.Samples.{
  done, task, one_line, linux, idle_stats, idle_process, one_idle, process_found,
  one_idle-IsBounded,
}
use celery_to_go.Pool.Manager.State.{
  should_recycle_process, is_worn_out, pop_idle, take_process, store_process, update_process_stats,
  return_process_to_idle_pool, is_idle, is_error,
}
use celery_to_go.Pool.Manager.{
  serve_request, get_idle_process, recycle_process, settle_process, stop_pool, stop_processes,
  answer_request,
}
use celery_to_go.Pool.Manager.Bounds.{IsBounded, serve_request-IsBounded}
use celery_to_go.Pool.Manager.Counters.{
  gap, busy_after, gap_after, recycle_process-counts, settle_process-busy,
}

-- The process after its fourth task.
abbrev used_stats : ProcessStats
used_stats = record idle_stats { tasks_processed = pos 4; last_task_time = 1000 }

abbrev after_request : ProcessPool
after_request = record one_idle {
  processes = Dict.put Dict.empty "p" (record idle_process { stats = used_stats });
  stats = record one_idle.stats { process_stats = Dict.put Dict.empty "p" used_stats };
}

request_served :
    serve_request linux one_line 3 task one_idle 1000 ≡ some (reply done, after_request, 1000)
unfolding serve_request get_idle_process pop_idle take_process answer_request store_process
    update_process_stats settle_process should_recycle_process is_worn_out is_idle is_error
    return_process_to_idle_pool execute_task Dict.get Dict.put Dict.empty ◌+ℤ◌ ◌-ℤ◌
request_served = refl

serve_request-IsBounded_example : IsBounded after_request
serve_request-IsBounded_example =
    serve_request-IsBounded linux one_line 3 task one_idle after_request 1000 1000 (reply done)
      request_served one_idle-IsBounded

settle_process-busy_example :
    (settle_process linux one_line "p" one_idle 9000).0.stats.busy_processes
    ≡ (if should_recycle_process 9000 "p" one_idle then pos 0 else pos 0 -ℤ pos 1)
settle_process-busy_example =
    settle_process-busy linux one_line one_idle 9000 "p" idle_process process_found refl

recycle_process-counts_example :
    let pool' = (recycle_process linux one_line "p" one_idle 9000).0 in
    (pool'.stats.busy_processes ≡ busy_after idle (pos 0))
    × (gap pool' ≡ gap_after idle (gap one_idle))
recycle_process-counts_example =
    recycle_process-counts linux one_line one_idle 9000 "p" idle_process process_found

abbrev after_stop : ProcessPool
after_stop = record one_idle {
  processes =
      Dict.put Dict.empty "p"
        (record idle_process { state = stopped; stats = record idle_stats { state = stopped } });
  is_shut_down = true;
}

stopped_once : stop_pool linux one_line ("p" ∷ []) one_idle 1000 ≡ ok (after_stop, 1000)
unfolding stop_pool stop_processes stop Dict.get Dict.put Dict.empty
stopped_once = refl
