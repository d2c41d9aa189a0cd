-- ===== src/Main/Life/Shutdown.antt =====
-- How the program ends.
use celery_to_go.Prelude.{String, Bool, List, ◌≡◌, ◌≢◌, refl, inl, inr}
use celery_to_go.Prelude.Errors.{Result-cases}
use celery_to_go.Pool.Manager.{stop_pool}
use celery_to_go.Pool.Manager.Shutdown.{stop_pool_twice}
use celery_to_go.Worker.Tasks.{stop}
use celery_to_go.Main.Life.{
  Outside, Worlds, Program, panicked, returned, shut_down, main, start_up, Start, runs, ends,
}
use celery_to_go.Main.Life.Started.{IsGood, start_up-IsGood}

module _ (o : Outside) where
  -- Whatever the program is like when its signal comes, its shutdown ends in a panic: the deferred
  -- second stop of the pool closes a channel that is closed.
  pub shut_down_panics :
      (order order' : List String) (in_time : Bool) (p : Program o)
      → shut_down o order order' in_time p ≡ panicked
  unfolding shut_down
  shut_down_panics order order' in_time p = elim (Result-cases (stop in_time p.worker)) [
    | inr (inr panics) ↦ rw (panics, shut_down) refl
    | inr (inl (e, fails)) ↦ rw (fails, shut_down) refl
    | inl (stopped, good) ↦
        elim (Result-cases (stop_pool o.os o.protocol order p.pool p.worlds.os)) [
          | inr (inr panics) ↦ rw (good, panics, shut_down) refl
          | inr (inl (e, fails)) ↦ rw (good, fails, shut_down) refl
          | inl ((pool, os), once) ↦
              rw
                (
                  good,
                  once,
                  shut_down,
                  stop_pool_twice o.os o.protocol order order' p.pool pool p.worlds.os os os once,
                )
                refl
        ]
  ]

  -- Whatever the flags, the libraries and the outside world are and whatever happens while the program
  -- runs, it never comes to the end of `main`: it exits with a code before it serves, or panics.
  pub main_never_returns :
      (order order' : List String) (in_time : Bool) (serve : Program o → Program o) (w : Worlds o)
      → main o order order' in_time serve w ≢ returned
  unfolding main
  main_never_returns order order' in_time serve w = early (start_up o w) refl (start_up-IsGood o w)
    where
      early :
          (s : Start o)
          → start_up o w ≡ s
          → IsGood o s
          → main o order order' in_time serve w ≢ returned
      early (ends x) same good = rw (same, main) good
      early (runs p) same good =
          rw (same, main, shut_down_panics order order' in_time (serve p)) (λ e. cc)
