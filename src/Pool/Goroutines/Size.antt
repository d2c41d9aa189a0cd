-- ===== src/Pool/Goroutines/Size.antt =====
-- The number of processes while the goroutines of the pool interleave.
use celery_to_go.Prelude.{
  ℕ, zero, suc, String, ◌+◌, ◌≤◌, ◌*◌, ◌≡◌, refl, ap, ◌∙◌, List, [], ◌∷◌, ◌⊎◌, inl, inr, length,
  length-append, arith, Option-cases,
}
use celery_to_go.Prelude.Int.{pos, pos_part, ◌<ℤ◌}
use celery_to_go.Prelude.Dict
use celery_to_go.Prelude.Dict.{size-put, size-delete}
use celery_to_go.Pool.Types.{PoolConfig}
use celery_to_go.Pool.Process.State.{Process}
use celery_to_go.Pool.Config.{ProcessPool, new_process_pool}
use celery_to_go.Pool.Manager.State.{store_process}
use celery_to_go.Pool.Goroutines.{
  Pc, signing_on, starting, inserting, Jump, receive, Shared, Move, jump, execute, stop, delete,
  insert, room, System, Step, move, close, Run, workers, launch,
}
use celery_to_go.Pool.Goroutines.Totals.{total, total-middle, total-launch, Run-keeps}

-- A goroutine that has found room for a process and has not put it into the map.
unfoldable pub creates : Pc → ℕ
creates (signing_on k) = 1
creates (starting k) = 1
creates (inserting p k) = 1
creates _ = 0

creates_le : (pc : Pc) → creates pc ≤ 1
unfolding creates
creates_le (signing_on k) = omega arith
creates_le _ = omega arith

total-creates : (pcs : List Pc) → total creates pcs ≤ length pcs
unfolding total
total-creates [] = omega arith
total-creates (pc ∷ pcs) = omega (arith, creates_le pc, total-creates pcs)

abbrev size : Shared → ℕ
size s = Dict.size s.pool.processes

size-store :
    (p : Process) (pool : ProcessPool)
    → Dict.size (store_process p pool).processes ≡ Dict.size pool.processes
unfolding store_process
size-store p pool = elim (Option-cases (Dict.get pool.processes p.id)) [
  | inl gone ↦ rw (gone, store_process) refl
  | inr (old, found) ↦ rw (found, store_process) (ground (arith, size-put pool.processes p.id p))
]

config-store : (p : Process) (pool : ProcessPool) → (store_process p pool).config ≡ pool.config
unfolding store_process
config-store p pool = elim (Option-cases (Dict.get pool.processes p.id)) [
  | inl gone ↦ rw (gone, store_process) refl
  | inr (old, found) ↦ rw (found, store_process) refl
]

length-workers : (n : ℕ) → length (workers n) ≡ n
unfolding workers
length-workers zero = refl
length-workers (suc n) = omega (arith, length-workers n)

-- A move takes no more room than its goroutine had, or finds some.
abbrev Room : Pc → Shared → Pc → Shared → Type 0
Room pc s pc' s' =
    (size s' + creates pc' ≤ size s + creates pc) ⊎ (pos (size s') <ℤ s.pool.config.max_processes)

Jump-creates : {pc pc' : Pc} → Jump pc pc' → creates pc' ≤ creates pc
unfolding creates
Jump-creates receive = omega arith
Jump-creates _ = omega arith

module _ (uuids : ℕ → String) where
  Move-Room :
      {pc : Pc} {s : Shared} {pc' : Pc} {s' : Shared} → Move uuids pc s pc' s' → Room pc s pc' s'
  unfolding creates
  Move-Room (jump j) = inl (omega (arith, Jump-creates j))
  Move-Room {s = s} (execute id p e) = inl (omega (arith, size-store p s.pool))
  Move-Room {s = s} (stop id p c e) = inl (omega (arith, size-store p s.pool))
  Move-Room {s = s} (delete id c) = inl (omega (arith, size-delete s.pool.processes id))
  Move-Room {s = s} (insert p k) = inl (ground (arith, size-put s.pool.processes p.id p))
  Move-Room (room k free) = inr (ground arith)
  Move-Room _ = inl (omega arith)

  Move-config :
      {pc : Pc} {s : Shared} {pc' : Pc} {s' : Shared}
      → Move uuids pc s pc' s'
      → s'.pool.config ≡ s.pool.config
  Move-config (jump j) = refl
  Move-config {s = s} (execute id p e) = config-store p s.pool
  Move-config {s = s} (stop id p c e) = config-store p s.pool
  Move-config _ = refl

  -- Every goroutine beyond one can make one process too many.
  record IsWithin (config : PoolConfig) (s : System uuids) : Type 0 where
    same_config : s.shared.pool.config ≡ config
    within :
        size s.shared + total creates s.goroutines + 1
        ≤ pos_part config.max_processes + length s.goroutines
    goroutines_count : length s.goroutines ≡ pos_part config.max_processes + 1

  Step-IsWithin :
      (config : PoolConfig) (s t : System uuids)
      → Step uuids s t
      → IsWithin config s
      → IsWithin config t
  Step-IsWithin config s t (move {pc = pc} {pc' = pc'} before after here m) h =
      let before_le = total-creates before in
      let after_le = total-creates after in
      let max_same = ap (λ c. pos_part c.max_processes) h.same_config in
      let long = ap length here in
      let whole = ap (total creates) here in
      record {
        same_config = Move-config m ∙ h.same_config;
        within = elim (Move-Room m) [
          | inl less ↦ omega (
            arith,
            h.within,
            total-middle creates before after pc,
            total-middle creates before after pc',
            length-append before (pc ∷ after),
            length-append before (pc' ∷ after),
          )
          | inr free ↦ omega (
            arith,
            h.within,
            creates_le pc',
            total-middle creates before after pc',
            length-append before (pc ∷ after),
            length-append before (pc' ∷ after),
          )
        ];
        goroutines_count = omega (
          arith,
          h.goroutines_count,
          length-append before (pc ∷ after),
          length-append before (pc' ∷ after),
        );
      }
  Step-IsWithin config s t (close open_) h = record {
    same_config = h.same_config;
    within = h.within;
    goroutines_count = h.goroutines_count;
  }

  launch-IsWithin :
      (config : PoolConfig) → IsWithin (new_process_pool config).config (launch uuids config)
  launch-IsWithin config =
      let n = pos_part (new_process_pool config).config.max_processes in
      let all_workers = length-workers n in
      let no_creation =
        total-launch creates (pos_part (new_process_pool config).config.min_processes) n
          (unfold creates in refl) (unfold creates in refl) in
      record {
        same_config = refl;
        within = unfold new_process_pool Dict.size Dict.empty in omega arith;
        goroutines_count = omega arith;
      }

-- However the goroutines of a pool that is started from any configuration interleave, whatever the
-- operating system does and whichever identifiers it hands out, the pool never holds more than twice
-- the maximum number of processes of its configuration.
pub Run-bound :
    (uuids : ℕ → String) (config : PoolConfig) (s : System uuids)
    → Run uuids (launch uuids config) s
    → Dict.size s.shared.pool.processes ≤ 2 * pos_part s.shared.pool.config.max_processes
Run-bound uuids config s run =
    let h =
      Run-keeps (IsWithin uuids (new_process_pool config).config)
        (Step-IsWithin uuids (new_process_pool config).config) (launch uuids config) s run
        (launch-IsWithin uuids config) in
    let max_same = ap (λ c. pos_part c.max_processes) h.same_config in
    omega (arith, h.within, h.goroutines_count)
