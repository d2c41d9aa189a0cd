-- ===== src/Pool/Goroutines/Examples.antt =====
-- The theorems on the goroutines of the pool at concrete runs.
use Prim.Native.Char.{nul}
use Prim.Native.String.{[] as []ₛ, ◌∷◌ as ◌∷ₛ◌}
use celery_to_go.Prelude.{
  false, ℕ, zero, suc, String, ◌+◌, ◌*◌, ◌≤◌, ◌≡◌, refl, ap, sym, ◌∙◌, true, [], ◌∷◌, ◌==◌, arith,
}
use celery_to_go.Prelude.Int.{pos, pos_part, ◌<ℤ◌, ◌+ℤ◌, ◌-ℤ◌}
use celery_to_go.Prelude.Dict
use celery_to_go.Pool.Types.{PoolConfig}
use celery_to_go.Pool.Process.State.{Process}
use celery_to_go.Pool.Config.{new_process_pool}
use celery_to_go.Pool.Samples.{config, idle_process, one_idle, process_found}
use celery_to_go.Pool.Manager.State.{should_recycle_process, is_worn_out, count_start}
use celery_to_go.Pool.Goroutines.{
  waiting, creating, signing_on, initial, retry, counting, holding, checking, check, stopping, jump,
  receive, launch_again, no_idle, room, Shared, System, Run, none_yet, launch, deciding, workers,
}
use celery_to_go.Pool.Goroutines.Totals.{total}
use celery_to_go.Pool.Goroutines.Size.{Run-bound}
use celery_to_go.Pool.Goroutines.Counters.{starts, stops, Run-IsCounted}
use celery_to_go.Pool.Goroutines.Ownership.{owns, occurs, Run-exclusive}
use celery_to_go.Pool.Goroutines.Races.{
  stay, again, Moves-Run, creation, creators_exceed_max, monitor_stops_busy,
}
use celery_to_go.Pool.Goroutines.Recycled.{double_recycle}

-- Identifiers of every length.
unfoldable unary : ℕ → String
unary zero = []ₛ
unary (suc n) = nul ∷ₛ unary n

characters : String → ℕ
characters []ₛ = 0
characters (c ∷ₛ s) = suc (characters s)

characters-unary : (n : ℕ) → characters (unary n) ≡ n
unfolding characters unary
characters-unary zero = refl
characters-unary (suc n) = ap suc (characters-unary n)

unary_distinct : (m n : ℕ) → unary m ≡ unary n → m ≡ n
unary_distinct m n e = sym (characters-unary m) ∙ ap characters e ∙ characters-unary n

abbrev process_at : ℕ → Process
process_at n = record idle_process { id = unary n }

abbrev one_process : PoolConfig
one_process = (new_process_pool config).config

abbrev before_checks : System unary
before_checks = record {
  shared = (launch unary config).shared;
  goroutines = creating (initial 0) ∷ creating retry ∷ [];
}

-- The pool starts its process while a first task is there already.
both_creating : Run unary (launch unary config) before_checks
unfolding new_process_pool workers
both_creating =
    Moves-Run unary (again (jump receive) (again (no_idle refl) stay)) (creating (initial 0) ∷ [])
      [] _ refl
      (Moves-Run unary (again (jump (launch_again 0)) stay) [] (waiting ∷ []) _ refl none_yet)

abbrev one_checked : System unary
one_checked = record before_checks { goroutines = signing_on (initial 0) ∷ creating retry ∷ [] }

-- The pool and the identifiers after one more creation, up to the map.
abbrev with_new : Process → Shared → Shared
with_new p s = record {
  pool = record s.pool {
    processes = Dict.put s.pool.processes p.id p;
    stats = count_start s.pool.stats;
  };
  drawn = suc s.drawn;
}

abbrev one_created : System unary
one_created = record {
  shared = with_new (process_at 0) before_checks.shared;
  goroutines = signing_on (initial 0) ∷ counting (process_at 0) retry ∷ [];
}

abbrev two_processes : System unary
two_processes = record {
  shared = with_new (process_at 1) one_created.shared;
  goroutines = counting (process_at 1) (initial 0) ∷ counting (process_at 0) retry ∷ [];
}

checked_once : Run unary (launch unary config) one_checked
unfolding new_process_pool Dict.size Dict.empty
checked_once =
    Moves-Run unary {r = before_checks.shared} (again (room (initial 0) refl) stay) []
      (creating retry ∷ []) _ refl both_creating

created_once : Run unary (launch unary config) one_created
unfolding new_process_pool Dict.size Dict.empty
created_once =
    Moves-Run unary {r = before_checks.shared}
      (again (room retry refl) (creation unary before_checks.shared retry (process_at 0) refl))
      (signing_on (initial 0) ∷ []) [] _ refl checked_once

-- Both find room, and each makes its process.
both_created : Run unary (launch unary config) two_processes
both_created =
    Moves-Run unary {r = one_created.shared}
      (creation unary one_created.shared (initial 0) (process_at 1) refl) []
      (counting (process_at 0) retry ∷ []) _ refl created_once

Run-bound_example :
    Dict.size two_processes.shared.pool.processes
    ≤ 2 * pos_part two_processes.shared.pool.config.max_processes
Run-bound_example = Run-bound unary config two_processes both_created

Run-IsCounted_example :
    (two_processes.shared.pool.stats.starting_processes
      ≡ pos (total starts two_processes.goroutines))
    × (two_processes.shared.pool.stats.stopping_processes
        ≡ pos (total stops two_processes.goroutines))
Run-IsCounted_example = Run-IsCounted unary config two_processes both_created

Run-exclusive_example :
    total (owns (unary 0)) two_processes.goroutines
      + occurs (unary 0) two_processes.shared.pool.idle_processes
    ≤ 1
Run-exclusive_example =
    Run-exclusive unary config two_processes (unary 0) unary_distinct both_created

creators_exceed_max_example :
    (t : System unary) × Run unary before_checks t
    × (t.shared.pool.config.max_processes <ℤ pos (Dict.size t.shared.pool.processes))
unfolding new_process_pool Dict.size Dict.empty Dict.get
creators_exceed_max_example =
    creators_exceed_max unary before_checks (initial 0) retry (process_at 0) (process_at 1) [] [] []
      refl refl refl refl (λ e. omega (arith, unary_distinct 0 1 e)) refl refl

-- A worker has the only process, and the monitor comes to look at it.
abbrev one_busy : System unary
one_busy = record {
  shared = record { pool = one_idle; drawn = 1 };
  goroutines = holding "p" ∷ checking ("p" ∷ []) ∷ [];
}

worn_out : should_recycle_process 9000 "p" one_idle ≡ true
unfolding should_recycle_process is_worn_out Dict.get Dict.put Dict.empty ◌+ℤ◌
worn_out = refl

monitor_stops_busy_example :
    (t : System unary) × Run unary one_busy t
    × (t.goroutines ≡ holding "p" ∷ stopping "p" (check []) ∷ [])
monitor_stops_busy_example =
    monitor_stops_busy unary one_busy "p" idle_process [] 9000 [] [] [] refl process_found worn_out

-- A worker that decides on the process to which the monitor comes too.
abbrev two_deciding : System unary
two_deciding = record one_busy { goroutines = deciding "p" ∷ checking ("p" ∷ []) ∷ [] }

double_recycle_example :
    (t : System unary) × Run unary two_deciding t
    × (t.shared.pool.stats.total_processes
        ≡ two_deciding.shared.pool.stats.total_processes -ℤ pos 1 -ℤ pos 1)
    × ((j : String)
        → ("p" == j) ≡ false
        → Dict.get t.shared.pool.processes j ≡ Dict.get two_deciding.shared.pool.processes j)
double_recycle_example =
    double_recycle unary two_deciding "p" idle_process [] 9000 [] [] [] refl process_found refl
      worn_out
