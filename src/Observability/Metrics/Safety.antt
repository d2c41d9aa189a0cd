-- ===== src/Observability/Metrics/Safety.antt =====
-- The observations of internal/observability/metrics/metrics.go, made with the default metrics.
use celery_to_go.Prelude.{
  String, Bool, true, false, List, [], ◌∷◌, ◌≡◌, refl, sym, ◌∙◌, Option, none, some, Option-cases,
  Bool-cases, inl, inr, if◌then◌else◌,
}
use celery_to_go.Prelude.Int.{ℤ}
use celery_to_go.Observability.Metrics.{
  Config, Prometheus, set_defaults, ◌>>=◌, pure, Action, Metrics, disabled_metrics, start_server,
  new_enabled_metrics, new_metrics, use_pointer, if_enabled, DefaultMetrics, init_metrics,
  with_default, shutdown, observe_task_received, observe_task_processed, observe_task_succeeded,
  observe_task_failed, observe_task_retried, observe_task_duration, set_processes_total,
  set_processes_idle, set_processes_busy, set_processes_starting, set_processes_stopping,
  set_processes_error, set_message_groups_active, set_message_groups_processing,
}

-- The functions of the package that observe something.
pub data Observation : Type 0 where
  task_received : (queue task_name : String) → Observation
  task_processed : (queue task_name : String) → Observation
  task_succeeded : (queue task_name : String) → Observation
  task_failed : (queue task_name : String) → Observation
  task_retried : (queue task_name : String) → Observation
  task_lasted : (queue task_name : String) → ℤ → Observation
  processes_total : ℤ → Observation
  processes_idle : ℤ → Observation
  processes_busy : ℤ → Observation
  processes_starting : ℤ → Observation
  processes_stopping : ℤ → Observation
  processes_error : ℤ → Observation
  message_groups_active : ℤ → Observation
  message_groups_processing : ℤ → Observation

module _ (prometheus : Prometheus) where
  open prometheus use {World}

  pub method : Observation → Metrics prometheus → Action prometheus Unit
  method (task_received queue task_name) = observe_task_received prometheus queue task_name
  method (task_processed queue task_name) = observe_task_processed prometheus queue task_name
  method (task_succeeded queue task_name) = observe_task_succeeded prometheus queue task_name
  method (task_failed queue task_name) = observe_task_failed prometheus queue task_name
  method (task_retried queue task_name) = observe_task_retried prometheus queue task_name
  method (task_lasted queue task_name duration) =
      observe_task_duration prometheus queue task_name duration
  method (processes_total count) = set_processes_total prometheus count
  method (processes_idle count) = set_processes_idle prometheus count
  method (processes_busy count) = set_processes_busy prometheus count
  method (processes_starting count) = set_processes_starting prometheus count
  method (processes_stopping count) = set_processes_stopping prometheus count
  method (processes_error count) = set_processes_error prometheus count
  method (message_groups_active count) = set_message_groups_active prometheus count
  method (message_groups_processing count) = set_message_groups_processing prometheus count

  -- Several observations, one after the other.
  pub observe_all : List Observation → DefaultMetrics prometheus → Action prometheus Unit
  observe_all [] default w = some (tt, w)
  observe_all (o ∷ os) default w = elim (with_default prometheus (method o) default w) [
    | none ↦ none
    | some (_, w') ↦ observe_all os default w'
  ]

  -- A pointer that is not nil.
  abbrev IsPresent : {A : Type 0} → Option A → Type 0
  IsPresent p = elim p [ none ↦ ⊥ | some _ ↦ Unit ]

  record HasCollectors (m : Metrics prometheus) : Type 0 where
    tasks_received : IsPresent m.tasks_received
    tasks_processed : IsPresent m.tasks_processed
    tasks_succeeded : IsPresent m.tasks_succeeded
    tasks_failed : IsPresent m.tasks_failed
    tasks_retried : IsPresent m.tasks_retried
    task_duration : IsPresent m.task_duration
    processes_total : IsPresent m.processes_total
    processes_idle : IsPresent m.processes_idle
    processes_busy : IsPresent m.processes_busy
    processes_starting : IsPresent m.processes_starting
    processes_stopping : IsPresent m.processes_stopping
    processes_error : IsPresent m.processes_error
    message_groups_active : IsPresent m.message_groups_active
    message_groups_processing : IsPresent m.message_groups_processing

  -- What holds of the answer of a call that does not panic.
  abbrev Gives : {A : Type 0} → (A → Type 0) → Action prometheus A → Type 0
  Gives P action = (w : World) → elim (action w) [ none ↦ Unit | some (a, _) ↦ P a ]

  Gives-bind :
      {A B : Type 0} (P : B → Type 0) (m : Action prometheus A) (f : A → Action prometheus B)
      → ((a : A) → Gives P (f a))
      → Gives P (◌>>=◌ prometheus m f)
  unfolding ◌>>=◌
  Gives-bind P m f h w = elim (Option-cases (m w)) [
    | inl panics ↦ rw panics tt
    | inr ((a, w'), e) ↦ rw e (h a w')
  ]

  -- Metrics that are enabled have all their collectors.
  abbrev IsReady : Config → Metrics prometheus → Type 0
  IsReady config m = (m.config.enabled ≡ config.enabled) × (config.enabled ≡ true → HasCollectors m)

  new_enabled_metrics-Gives :
      (config : Config) → Gives (IsReady config) (new_enabled_metrics prometheus config)
  unfolding new_enabled_metrics start_server
  new_enabled_metrics-Gives config = Gives-bind (IsReady config) _ _ λ a0.
      (Gives-bind (IsReady config) _ _ λ a1.
        (Gives-bind (IsReady config) _ _ λ a2.
          (Gives-bind (IsReady config) _ _ λ a3.
            (Gives-bind (IsReady config) _ _ λ a4.
              (Gives-bind (IsReady config) _ _ λ a5.
                (Gives-bind (IsReady config) _ _ λ a6.
                  (Gives-bind (IsReady config) _ _ λ a7.
                    (Gives-bind (IsReady config) _ _ λ a8.
                      (Gives-bind (IsReady config) _ _ λ a9.
                        (Gives-bind (IsReady config) _ _ λ a10.
                          (Gives-bind (IsReady config) _ _ λ a11.
                            (Gives-bind (IsReady config) _ _ λ a12.
                              (Gives-bind (IsReady config) _ _ λ a13.
                                (Gives-bind (IsReady config) _ _ λ a14. λ w. (
                                  refl,
                                  λ on. record {
                                    tasks_received = tt;
                                    tasks_processed = tt;
                                    tasks_succeeded = tt;
                                    tasks_failed = tt;
                                    tasks_retried = tt;
                                    task_duration = tt;
                                    processes_total = tt;
                                    processes_idle = tt;
                                    processes_busy = tt;
                                    processes_starting = tt;
                                    processes_stopping = tt;
                                    processes_error = tt;
                                    message_groups_active = tt;
                                    message_groups_processing = tt;
                                  },
                                )))))))))))))))

  new_metrics-Gives : (config : Config) → Gives (IsReady config) (new_metrics prometheus config)
  unfolding new_metrics set_defaults
  new_metrics-Gives config = by_guard config.enabled refl
    where
      by_guard :
          (b : Bool)
          → config.enabled ≡ b
          → Gives (IsReady config) (
              if b
              then new_enabled_metrics prometheus (set_defaults config)
              else pure prometheus (disabled_metrics prometheus config))
      by_guard true on = new_enabled_metrics-Gives (set_defaults config)
      by_guard false off = λ w. (refl, λ on. cc)

  init_metrics-Gives :
      (config : Config)
      → Gives
          (λ d. (m : Metrics prometheus) × (d ≡ some m) × IsReady config m)
          (init_metrics prometheus config)
  unfolding init_metrics ◌>>=◌
  init_metrics-Gives config w = elim (Option-cases (new_metrics prometheus config w)) [
    | inl panics ↦ rw panics tt
    | inr ((m, w'), e) ↦ rw e (m, refl, rw e at (new_metrics-Gives config w))
  ]

  -- The use of a pointer that is not nil does not panic.
  use_pointer-IsPresent :
      {A : Type 0} (p : Option A) (f : A → World → World) (w : World)
      → IsPresent p
      → (w' : World) × (use_pointer prometheus p f w ≡ some (tt, w'))
  unfolding use_pointer
  use_pointer-IsPresent none f w h = elim h [ ]
  use_pointer-IsPresent (some a) f w h = (f a w, refl)

  -- An action that does not panic, and does nothing where metrics are disabled.
  abbrev Observes : Metrics prometheus → Action prometheus Unit → Type 0
  Observes m action =
      (w : World) → (w' : World) × (action w ≡ some (tt, w')) × (m.config.enabled ≡ false → w' ≡ w)

  guarded :
      {A : Type 0} (m : Metrics prometheus) (p : Option A) (f : A → World → World)
      → (m.config.enabled ≡ true → IsPresent p)
      → Observes m (if_enabled prometheus m (use_pointer prometheus p f))
  unfolding if_enabled
  guarded m p f h w = elim (Bool-cases m.config.enabled) [
    | inl on ↦ let (w', used) = use_pointer-IsPresent p f w (h on) in (w', rw on used, λ off. cc)
    | inr off ↦ (w, rw off refl, λ _. refl)
  ]

  with_default-Observes :
      (o : Observation) (config : Config) (m : Metrics prometheus)
      → IsReady config m
      → Observes m (with_default prometheus (method o) (some m))
  unfolding with_default method observe_task_received observe_task_processed observe_task_succeeded
      observe_task_failed observe_task_retried observe_task_duration set_processes_total
      set_processes_idle set_processes_busy set_processes_starting set_processes_stopping
      set_processes_error set_message_groups_active set_message_groups_processing
  with_default-Observes (task_received q n) config m (same, has) =
      guarded m m.tasks_received _ (λ on. (has (sym same ∙ on)).tasks_received)
  with_default-Observes (task_processed q n) config m (same, has) =
      guarded m m.tasks_processed _ (λ on. (has (sym same ∙ on)).tasks_processed)
  with_default-Observes (task_succeeded q n) config m (same, has) =
      guarded m m.tasks_succeeded _ (λ on. (has (sym same ∙ on)).tasks_succeeded)
  with_default-Observes (task_failed q n) config m (same, has) =
      guarded m m.tasks_failed _ (λ on. (has (sym same ∙ on)).tasks_failed)
  with_default-Observes (task_retried q n) config m (same, has) =
      guarded m m.tasks_retried _ (λ on. (has (sym same ∙ on)).tasks_retried)
  with_default-Observes (task_lasted q n d) config m (same, has) =
      guarded m m.task_duration _ (λ on. (has (sym same ∙ on)).task_duration)
  with_default-Observes (processes_total n) config m (same, has) =
      guarded m m.processes_total _ (λ on. (has (sym same ∙ on)).processes_total)
  with_default-Observes (processes_idle n) config m (same, has) =
      guarded m m.processes_idle _ (λ on. (has (sym same ∙ on)).processes_idle)
  with_default-Observes (processes_busy n) config m (same, has) =
      guarded m m.processes_busy _ (λ on. (has (sym same ∙ on)).processes_busy)
  with_default-Observes (processes_starting n) config m (same, has) =
      guarded m m.processes_starting _ (λ on. (has (sym same ∙ on)).processes_starting)
  with_default-Observes (processes_stopping n) config m (same, has) =
      guarded m m.processes_stopping _ (λ on. (has (sym same ∙ on)).processes_stopping)
  with_default-Observes (processes_error n) config m (same, has) =
      guarded m m.processes_error _ (λ on. (has (sym same ∙ on)).processes_error)
  with_default-Observes (message_groups_active n) config m (same, has) =
      guarded m m.message_groups_active _ (λ on. (has (sym same ∙ on)).message_groups_active)
  with_default-Observes (message_groups_processing n) config m (same, has) =
      guarded m m.message_groups_processing _
        (λ on. (has (sym same ∙ on)).message_groups_processing)

  observe_all-Observes :
      (os : List Observation) (config : Config) (m : Metrics prometheus)
      → IsReady config m
      → Observes m (observe_all os (some m))
  unfolding observe_all
  observe_all-Observes [] config m ready w = (w, refl, λ off. refl)
  observe_all-Observes (o ∷ os) config m ready w =
      let (w₁, first, nothing) = with_default-Observes o config m ready w in
      let (w₂, rest, nothing_more) = observe_all-Observes os config m ready w₁ in
      (w₂, rw (first, observe_all) rest, λ off. nothing_more off ∙ nothing off)

  -- After the metrics have been initialized with any configuration, any sequence of observations
  -- comes to its end without a panic, and where the configuration disables metrics it does nothing.
  pub observe_all_total :
      (config : Config) (os : List Observation) (default : DefaultMetrics prometheus) (w w₁ : World)
      → init_metrics prometheus config w ≡ some (default, w₁)
      → (w₂ : World) × (observe_all os default w₁ ≡ some (tt, w₂))
        × (config.enabled ≡ false → w₂ ≡ w₁)
  observe_all_total config os default w w₁ e =
      let (m, set, ready) = rw e at (init_metrics-Gives config w) in
      let (w₂, ends, nothing) = observe_all-Observes os config m ready w₁ in
      (w₂, rw set ends, λ off. nothing (ready.0 ∙ off))

  -- Before the metrics are initialized, any sequence of observations and the shutdown do nothing, and
  -- the shutdown reports no error.
  pub observe_all-none :
      (os : List Observation) (w : World)
      → (observe_all os none w ≡ some (tt, w)) × (shutdown prometheus none w ≡ (none, w))
  unfolding observe_all with_default shutdown
  observe_all-none [] w = (refl, refl)
  observe_all-none (o ∷ os) w = observe_all-none os w
