-- ===== src/Main/Life/Started.antt =====
-- What the program is like when it has started.
use celery_to_go.Prelude.{ℕ, ◌≡◌, ◌≢◌, refl, sym, subst, ◌⊎◌, inl, inr, Option-cases}
use celery_to_go.Prelude.Errors.{Result-cases}
use celery_to_go.Broker.Config.{Broker}
use celery_to_go.Broker.Config.Defaults.{IsConfigured}
use celery_to_go.Broker.Requests.{connect}
use celery_to_go.Pool.Manager.{start_pool}
use celery_to_go.Pool.Manager.Bounds.{IsBounded, started_pool-IsBounded}
use celery_to_go.Pool.Manager.Settings.{start_pool-config}
use celery_to_go.Main.Setup.Fits.{
  PoolFits, WorkerFits, setup_process_pool-PoolFits, setup_worker-WorkerFits,
}
use celery_to_go.Observability.Tracing as Tracing
use celery_to_go.Observability.Metrics as Metrics
use celery_to_go.Main.Flags.{Config, OrExit, goes_on, exits, parse_flags}
use celery_to_go.Main.Setup.{setup_broker, setup_process_pool, pool_config}
use celery_to_go.Main.Setup.Broker.{
  IsBatchBroker, setup_broker-IsBatchBroker, setup_broker-IsConfigured,
}
use celery_to_go.Main.Life.{
  Outside, Worlds, Program, Ending, returned, Start, start_up, start_broker, start_components,
  setup_observability, runs, ends,
}

OrExit-cases : {A : Type 0} (r : OrExit A) → ((a : A) × (r ≡ goes_on a)) ⊎ ((n : ℕ) × (r ≡ exits n))
OrExit-cases (goes_on a) = inl (a, refl)
OrExit-cases (exits n) = inr (n, refl)

module _ (o : Outside) where
  -- The broker, the pool and the worker fit the flags.
  pub record IsStarted (p : Program o) : Type 0 where
    pub broker_fits : IsBatchBroker p.config p.broker
    pub broker_ranges : IsConfigured p.broker
    pub pool_fits : PoolFits p.config p.pool.config
    pub pool_bounded : IsBounded p.pool
    pub worker_fits : WorkerFits p.config p.worker

  -- A start that ends the program does not end it as the end of `main` does.
  abbrev pub IsGood : Start o → Type 0
  IsGood s = elim s [ ends x ↦ x ≢ returned | runs p ↦ IsStarted p ]

  start_components-IsGood :
      (config : Config) (broker : Broker) (metrics : Metrics.DefaultMetrics o.prometheus)
      (tracer : Tracing.DefaultTracer o.otel) (w : Worlds o)
      → IsBatchBroker config broker
      → IsConfigured broker
      → IsGood (start_components o config broker metrics tracer w)
  unfolding start_components setup_process_pool
  start_components-IsGood config broker metrics tracer w fits ranges =
      let started = start_pool o.os o.protocol (setup_process_pool config) w.os in
      elim (Option-cases started.0) [
        | inr (e, fails) ↦ rw (fails, start_components) (λ same. cc)
        | inl good ↦
            rw (good, start_components)
              (record {
                broker_fits = fits;
                broker_ranges = ranges;
                pool_fits =
                    subst (PoolFits config)
                      (sym (start_pool-config o.os o.protocol (setup_process_pool config) w.os))
                      (setup_process_pool-PoolFits config);
                pool_bounded = started_pool-IsBounded o.os o.protocol (pool_config config) w.os;
                worker_fits = setup_worker-WorkerFits config;
              })
      ]

  start_broker-IsGood :
      (config : Config) (metrics : Metrics.DefaultMetrics o.prometheus)
      (tracer : Tracing.DefaultTracer o.otel) (w : Worlds o)
      → IsGood (start_broker o config metrics tracer w)
  unfolding start_broker
  start_broker-IsGood config metrics tracer w =
      elim (Result-cases (setup_broker o.load_config config)) [
        | inr (inr panics) ↦ rw (panics, start_broker) (λ same. cc)
        | inr (inl (e, fails)) ↦ rw (fails, start_broker) (λ same. cc)
        | inl (broker, made) ↦ elim (Option-cases (connect o.client broker w.client).0) [
          | inr (e, fails) ↦ rw (made, fails, start_broker) (λ same. cc)
          | inl good ↦
              rw (made, good, start_broker)
                (start_components-IsGood config broker metrics tracer _
                  (setup_broker-IsBatchBroker o.load_config config broker made)
                  (setup_broker-IsConfigured o.load_config config broker made))
        ]
      ]

  pub start_up-IsGood : (w : Worlds o) → IsGood (start_up o w)
  unfolding start_up
  start_up-IsGood w = elim (OrExit-cases (parse_flags o.cli (o.os.environ w.os))) [
    | inr (n, stops) ↦ rw (stops, start_up) (λ same. cc)
    | inl (config, parsed) ↦ elim (Option-cases (setup_observability o config w)) [
      | inl panics ↦ rw (parsed, panics, start_up) (λ same. cc)
      | inr (((metrics, tracer), w'), set) ↦
          rw (parsed, set, start_up) (start_broker-IsGood config metrics tracer w')
    ]
  ]

  -- A start comes to one of these ends.
  pub data Starts : Start o → Type 0 where
    stopped_early : (x : Ending) → x ≢ returned → Starts (ends x)
    started : (p : Program o) → IsStarted p → Starts (runs p)

  -- Whatever the flags, the libraries and the outside world are, the start of the program ends it with
  -- a code or a panic, or gives a program that has a broker for the queue of its flags, in batch mode
  -- and with its settings in their ranges; a pool with no more processes than its maximum,
  -- with the paths and the environment of its flags, and each other setting of which is its flag where
  -- that is positive and the default of the pool otherwise, the maximum raised to the minimum; and a
  -- worker that has counted nothing, each setting of which is its flag, and whose retry intervals are 1
  -- and 30 seconds.
  pub start_up-Starts : (w : Worlds o) → Starts (start_up o w)
  start_up-Starts w = by_end (start_up o w) (start_up-IsGood w)
    where
      by_end : (s : Start o) → IsGood s → Starts s
      by_end (ends x) h = stopped_early x h
      by_end (runs p) h = started p h
