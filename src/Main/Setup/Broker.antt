-- ===== src/Main/Setup/Broker.antt =====
-- The broker that the program sets up from its flags.
use celery_to_go.Prelude.{String, Option, ◌≡◌, refl, arith, inl, inr, Option-cases}
use celery_to_go.Prelude.Int.{pos}
use celery_to_go.Prelude.Errors.{Error, ok}
use celery_to_go.Broker.Config.{Broker, new_sqs_fifo_broker, set_defaults, make_broker}
use celery_to_go.Broker.Config.Defaults.{IsConfigured, new_sqs_fifo_broker-IsConfigured}
use celery_to_go.Main.Flags.{Config}
use celery_to_go.Main.Setup.{broker_config, setup_broker}

pub record IsBatchBroker (config : Config) (b : Broker) : Type 0 where
  pub queue_url : b.queue_url ≡ config.queue_url
  pub fetch_mode : b.config.fetch_mode ≡ "batch"
  pub batch_size : b.config.batch_size ≡ pos 10
  pub max_prefetch : b.config.max_prefetch ≡ pos 50

batch_made :
    (config : Config) (b : Broker)
    → new_sqs_fifo_broker (broker_config config) ≡ ok b
    → b ≡ make_broker (set_defaults (broker_config config) "batch")
unfolding new_sqs_fifo_broker broker_config
batch_made config b e = ground arith

-- Whatever the flags are, a broker that the program sets up has the queue of the flags and is in batch
-- mode, with batches of 10 messages and a prefetch limit of 50.
pub setup_broker-IsBatchBroker :
    (load_config : String → Option Error) (config : Config) (b : Broker)
    → setup_broker load_config config ≡ ok b
    → IsBatchBroker config b
unfolding setup_broker set_defaults make_broker broker_config
setup_broker-IsBatchBroker load_config config b e =
    elim (Option-cases (load_config config.region)) [
      | inl loaded ↦
          rw (batch_made config b (rw (loaded, setup_broker) at e))
            (record { queue_url = refl; fetch_mode = refl; batch_size = refl; max_prefetch = refl })
      | inr (x, bad) ↦ cc (rw (bad, setup_broker) at e)
    ]

pub setup_broker-IsConfigured :
    (load_config : String → Option Error) (config : Config) (b : Broker)
    → setup_broker load_config config ≡ ok b
    → IsConfigured b
unfolding setup_broker
setup_broker-IsConfigured load_config config b e = elim (Option-cases (load_config config.region)) [
  | inl loaded ↦
      new_sqs_fifo_broker-IsConfigured (broker_config config) b (rw (loaded, setup_broker) at e)
  | inr (x, bad) ↦ cc (rw (bad, setup_broker) at e)
]
