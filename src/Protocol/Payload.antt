-- ===== src/Protocol/Payload.antt =====
-- `TaskPayload`, `ResultPayload` and `Protocol` of internal/protocol/protocol.go, and the values
-- that Go's `interface{}` holds after encoding/json has read them. A float64 is its 64 bits.
use celery_to_go.Prelude.{ℕ, String, Bool, List}
use celery_to_go.Prelude.Int.{ℤ}
use celery_to_go.Prelude.Errors.{Reply}

mutual
  pub data Value : Type 0 where
    null : Value
    bool : Bool → Value
    float : ℕ → Value
    int : ℤ → Value
    str : String → Value
    arr : Items → Value
    obj : Fields → Value

  pub data Fields : Type 0 where
    no_fields : Fields
    field : String → Value → Fields → Fields

  pub data Items : Type 0 where
    nil : Items
    cons : Value → Items → Items

pub record TaskPayload : Type 0 where
  pub task_name : String
  pub task_id : String
  pub args : Items
  pub kwargs : Fields
  pub retries : ℤ
  pub queue : String

pub record ResultPayload : Type 0 where
  pub task_id : String
  pub status : String
  pub result : Value
  pub error : String
  pub traceback : String
  pub runtime : ℕ
  pub memory_used : ℤ

-- What `NewBaseMessage` takes from the UUID generator and the clock.
pub record Stamp : Type 0 where
  pub message_id : String
  pub timestamp : ℕ

-- The methods of `Protocol` that the process pool calls. A line is a list of bytes.
pub record Protocol : Type 0 where
  pub encode_task : Stamp → TaskPayload → Reply (List ℕ)
  pub decode_result : List ℕ → Reply ResultPayload
  pub encode_ping : Stamp → Reply (List ℕ)
  pub decode_pong : List ℕ → Reply (Unit {0})
  pub encode_stop : Stamp → Reply (List ℕ)
