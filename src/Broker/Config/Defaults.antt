-- ===== src/Broker/Config/Defaults.antt =====
-- What `NewSQSFIFOBroker` accepts, and the ranges of what it builds.
use celery_to_go.Prelude.{
  String, true, false, ◌≡◌, refl, ◌⊎◌, inl, inr, ◌↔◌, arith, eq_iff, ◌==◌, Bool-cases,
}
use celery_to_go.Prelude.Int.{pos, ◌≤ℤ◌}
use celery_to_go.Prelude.Dict
use celery_to_go.Prelude.Errors.{ok}
use celery_to_go.Broker.Config.{
  Config, Broker, new_sqs_fifo_broker, ends_with_fifo, set_defaults, make_broker,
}

-- The ranges that the broker relies on.
pub record IsConfigured (b : Broker) : Type 0 where
  pub max_messages : pos 1 ≤ℤ b.config.max_messages
  pub visibility_timeout : pos 1 ≤ℤ b.config.visibility_timeout
  pub wait_time_seconds : pos 1 ≤ℤ b.config.wait_time_seconds
  pub batch_size_min : pos 2 ≤ℤ b.config.batch_size
  pub batch_size_max : b.config.batch_size ≤ℤ pos 10
  pub max_prefetch : pos 1 ≤ℤ b.config.max_prefetch
  pub fetch_mode : (b.config.fetch_mode ≡ "single") ⊎ (b.config.fetch_mode ≡ "batch")
  pub no_groups : b.active_groups ≡ Dict.empty

set_defaults-IsConfigured :
    (config : Config) (mode : String)
    → (mode ≡ "single") ⊎ (mode ≡ "batch")
    → IsConfigured (make_broker (set_defaults config mode))
unfolding set_defaults make_broker
set_defaults-IsConfigured config mode h = record {
  max_messages = ground arith;
  visibility_timeout = ground arith;
  wait_time_seconds = ground arith;
  batch_size_min = ground arith;
  batch_size_max = ground arith;
  max_prefetch = ground arith;
  fetch_mode = h;
  no_groups = refl;
}

abbrev IsMode : String → Type 0
IsMode mode = (mode ≡ "single") ⊎ (mode ≡ "batch")

accepted :
    (config : Config) (b : Broker)
    → new_sqs_fifo_broker config ≡ ok b
    → (b ≡ make_broker (set_defaults config "batch"))
      ⊎ ((b ≡ make_broker (set_defaults config config.fetch_mode)) × IsMode config.fetch_mode)
unfolding new_sqs_fifo_broker
accepted config b e =
    ground (arith, eq_iff config.fetch_mode "single", eq_iff config.fetch_mode "batch")

-- A broker that `NewSQSFIFOBroker` returns has every setting in its range: limits and timeouts of
-- at least 1, a batch size from 2 to 10, a known fetch mode, and no message group yet.
pub new_sqs_fifo_broker-IsConfigured :
    (config : Config) (b : Broker) → new_sqs_fifo_broker config ≡ ok b → IsConfigured b
new_sqs_fifo_broker-IsConfigured config b e = elim (accepted config b e) [
  | inl made ↦ rw made (set_defaults-IsConfigured config "batch" (inr refl))
  | inr (made, mode) ↦ rw made (set_defaults-IsConfigured config config.fetch_mode mode)
]

empty_not_fifo : (url : String) → ends_with_fifo url ≡ true → (url == "") ≡ false
empty_not_fifo url h = ground (arith, eq_iff url "", empty_url)
  where
    empty_url : ends_with_fifo "" ≡ false
    empty_url = unfold ends_with_fifo in refl

-- A configuration is accepted exactly when its URL ends with ".fifo" and its fetch mode is empty,
-- "single" or "batch".
pub new_sqs_fifo_broker_accepts :
    (config : Config)
    → ((b : Broker) × (new_sqs_fifo_broker config ≡ ok b)) ↔ (
        (ends_with_fifo config.queue_url ≡ true)
        × ((config.fetch_mode ≡ "") ⊎ IsMode config.fetch_mode))
unfolding new_sqs_fifo_broker
new_sqs_fifo_broker_accepts config = (
  λ (b, e). ground (
    arith,
    eq_iff config.fetch_mode "",
    eq_iff config.fetch_mode "single",
    eq_iff config.fetch_mode "batch",
  ),
  λ (url, mode). elim (Bool-cases (config.fetch_mode == "")) [
    | inl unset ↦ (
      make_broker (set_defaults config "batch"),
      ground (arith, empty_not_fifo config.queue_url url),
    )
    | inr given ↦ (
      make_broker (set_defaults config config.fetch_mode),
      ground (
        arith,
        empty_not_fifo config.queue_url url,
        eq_iff config.fetch_mode "",
        eq_iff config.fetch_mode "single",
        eq_iff config.fetch_mode "batch",
      ),
    )
  ],
)
