-- ===== src/Pool/Goroutines/Counters.antt =====
-- The counters of the processes that start and that stop, while the goroutines of the pool
-- interleave.
use celery_to_go.Prelude.{ℕ, String, ◌≡◌, refl, ap, Option-cases, inl, inr}
use celery_to_go.Prelude.Int.{ℤ, pos, pos_part, ◌+ℤ◌, int_laws, parts_of_eq}
use celery_to_go.Prelude.Dict
use celery_to_go.Pool.Types.{ProcessState, idle, PoolConfig, PoolStats}
use celery_to_go.Pool.Process.State.{Process}
use celery_to_go.Pool.Config.{ProcessPool, new_process_pool}
use celery_to_go.Pool.Manager.State.{store_process, count_stopping}
use celery_to_go.Pool.Goroutines.{
  Pc, starting, failing, inserting, counting, stopping, deleting, signed_off, Jump, receive, Shared,
  Move, jump, execute, stop, sign_off, System, Step, move, close, Run, launch,
}
use celery_to_go.Pool.Goroutines.Totals.{total, total-launch, counter-total, Run-keeps}

-- A goroutine that has counted a process that starts, and has not taken it back.
unfoldable pub starts : Pc → ℕ
starts (starting k) = 1
starts (failing k) = 1
starts (inserting p k) = 1
starts (counting p k) = 1
starts _ = 0

-- A goroutine that has counted a process that stops, and has not taken it back.
unfoldable pub stops : Pc → ℕ
stops (stopping id c) = 1
stops (deleting id c) = 1
stops (signed_off id c) = 1
stops _ = 0

stats-store : (p : Process) (pool : ProcessPool) → (store_process p pool).stats ≡ pool.stats
unfolding store_process
stats-store p pool = elim (Option-cases (Dict.get pool.processes p.id)) [
  | inl gone ↦ rw (gone, store_process) refl
  | inr (old, found) ↦ rw (found, store_process) refl
]

-- What a move does to a counter, it does to the count of its goroutine.
abbrev Charged : (PoolStats → ℤ) → (Pc → ℕ) → Pc → Shared → Pc → Shared → Type 0
Charged counter w pc s pc' s' =
    counter s'.pool.stats +ℤ pos (w pc) ≡ counter s.pool.stats +ℤ pos (w pc')

Jump-starts : {pc pc' : Pc} → Jump pc pc' → starts pc ≡ starts pc'
unfolding starts
Jump-starts receive = refl
Jump-starts _ = refl

Jump-stops : {pc pc' : Pc} → Jump pc pc' → stops pc ≡ stops pc'
unfolding stops
Jump-stops receive = refl
Jump-stops _ = refl

sign_off-starting :
    (state : ProcessState) (stats : PoolStats)
    → (count_stopping state stats).starting_processes ≡ stats.starting_processes
unfolding count_stopping
sign_off-starting idle stats = refl
sign_off-starting _ stats = refl

sign_off-stopping :
    (state : ProcessState) (stats : PoolStats)
    → (count_stopping state stats).stopping_processes ≡ stats.stopping_processes +ℤ pos 1
unfolding count_stopping
sign_off-stopping idle stats = refl
sign_off-stopping _ stats = refl

module _ (uuids : ℕ → String) where
  Move-starts :
      {pc : Pc} {s : Shared} {pc' : Pc} {s' : Shared}
      → Move uuids pc s pc' s'
      → Charged (λ t. t.starting_processes) starts pc s pc' s'
  unfolding starts
  Move-starts {s = s} (jump j) = ap (λ n. s.pool.stats.starting_processes +ℤ pos n) (Jump-starts j)
  Move-starts {s = s} (execute id p e) =
      ap (λ t. t.starting_processes +ℤ pos 0) (stats-store p s.pool)
  Move-starts {s = s} (stop id p c e) =
      ap (λ t. t.starting_processes +ℤ pos 0) (stats-store p s.pool)
  Move-starts {s = s} (sign_off id p c state) =
      ap (λ n. n +ℤ pos 0) (sign_off-starting state s.pool.stats)
  Move-starts _ = omega int_laws

  Move-stops :
      {pc : Pc} {s : Shared} {pc' : Pc} {s' : Shared}
      → Move uuids pc s pc' s'
      → Charged (λ t. t.stopping_processes) stops pc s pc' s'
  unfolding stops
  Move-stops {s = s} (jump j) = ap (λ n. s.pool.stats.stopping_processes +ℤ pos n) (Jump-stops j)
  Move-stops {s = s} (execute id p e) =
      ap (λ t. t.stopping_processes +ℤ pos 0) (stats-store p s.pool)
  Move-stops {s = s} (stop id p c e) =
      ap (λ t. t.stopping_processes +ℤ pos 1) (stats-store p s.pool)
  Move-stops {s = s} (sign_off id p c state) =
      let counted = parts_of_eq (sign_off-stopping state s.pool.stats) in omega int_laws
  Move-stops _ = omega int_laws

  -- The two counters are the numbers of the goroutines at work on a start and on a stop.
  record IsCounted (s : System uuids) : Type 0 where
    pub starts_counted : s.shared.pool.stats.starting_processes ≡ pos (total starts s.goroutines)
    pub stops_counted : s.shared.pool.stats.stopping_processes ≡ pos (total stops s.goroutines)

  Step-IsCounted : (s t : System uuids) → Step uuids s t → IsCounted s → IsCounted t
  Step-IsCounted s t (move {pc = pc} {pc' = pc'} before after here m) h = record {
    starts_counted = counter-total starts before after pc pc' here (Move-starts m) h.starts_counted;
    stops_counted = counter-total stops before after pc pc' here (Move-stops m) h.stops_counted;
  }
  Step-IsCounted s t (close open_) h = record {
    starts_counted = h.starts_counted;
    stops_counted = h.stops_counted;
  }

  launch-IsCounted : (config : PoolConfig) → IsCounted (launch uuids config)
  launch-IsCounted config =
      let pool = new_process_pool config in
      let m = pos_part pool.config.min_processes in
      let n = pos_part pool.config.max_processes in
      record {
        starts_counted =
            let none_starts =
              total-launch starts m n (unfold starts in refl) (unfold starts in refl) in
            rw none_starts (unfold new_process_pool in refl);
        stops_counted =
            let none_stops = total-launch stops m n (unfold stops in refl) (unfold stops in refl) in
            rw none_stops (unfold new_process_pool in refl);
      }

-- However the goroutines of a pool that is started from any configuration interleave, its counter of
-- the starting processes is the number of goroutines that are between the count of a start and the
-- count of its outcome, and its counter of the stopping processes the number of those between the
-- count of a stop and the count of its end: both are 0 again when no goroutine is there.
pub Run-IsCounted :
    (uuids : ℕ → String) (config : PoolConfig) (s : System uuids)
    → Run uuids (launch uuids config) s
    → (s.shared.pool.stats.starting_processes ≡ pos (total starts s.goroutines))
      × (s.shared.pool.stats.stopping_processes ≡ pos (total stops s.goroutines))
Run-IsCounted uuids config s run =
    let h =
      Run-keeps (IsCounted uuids) (Step-IsCounted uuids) (launch uuids config) s run
        (launch-IsCounted uuids config) in
    (h.starts_counted, h.stops_counted)
