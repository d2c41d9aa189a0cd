-- ===== src/Pool/Manager/Settings.antt =====
-- No operation of the pool changes its settings.
use celery_to_go.Prelude.{◌≡◌, refl, inl, inr, Option-cases}
use celery_to_go.Prelude.Dict
use celery_to_go.Protocol.Payload.{Protocol}
use celery_to_go.Pool.Types.{PoolConfig}
use celery_to_go.Pool.Process.State.{Os}
use celery_to_go.Pool.Config.{ProcessPool}
use celery_to_go.Pool.Manager.State.{
  add_process, take_process, begin_recycle, end_recycle, store_process, update_process_stats,
  return_process_to_idle_pool,
}
use celery_to_go.Pool.Manager.{start_pool}
use celery_to_go.Pool.Manager.Steps.{Survives, start_pool_keeps}

HasConfig-survives : (config : PoolConfig) → Survives (λ pool. pool.config ≡ config)
HasConfig-survives config = record {
  add = λ pool p room h. unfold add_process in h;
  skip = λ pool ids h. h;
  take = λ pool ids h. unfold take_process in h;
  store = λ pool p h. elim (Option-cases (Dict.get pool.processes p.id)) [
    | inl gone ↦ unfold store_process in rw (gone, store_process) h
    | inr (old, found) ↦ unfold store_process in rw (found, store_process) h
  ];
  update = λ pool id h. elim (Option-cases (Dict.get pool.processes id)) [
    | inl gone ↦ unfold update_process_stats in rw (gone, update_process_stats) h
    | inr (old, found) ↦ unfold update_process_stats in rw (found, update_process_stats) h
  ];
  recycle = λ pool p id h. unfold end_recycle begin_recycle in h;
  return = λ pool id h. unfold return_process_to_idle_pool in h;
}

pub start_pool-config :
    (os : Os) (protocol : Protocol) (pool : ProcessPool) (w : os.World)
    → (start_pool os protocol pool w).1.config ≡ pool.config
start_pool-config os protocol pool w =
    start_pool_keeps os protocol (HasConfig-survives pool.config) pool w refl
