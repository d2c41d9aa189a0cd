-- ===== src/Broker/Receive/Limits.antt =====
-- How many messages a batch asks SQS for.
use celery_to_go.Prelude.{ℕ, ◌≡◌, refl, ◌⊎◌, arith, ltb, if◌then◌else◌, Bool-cases, inl, inr}
use celery_to_go.Prelude.Int.{ℤ, pos, negsuc, ◌≤ℤ◌, int32, int32_small}
use celery_to_go.Broker.Config.{Config}
use celery_to_go.Broker.Receive.{batch_limit, min}

int32_kept : (x : ℤ) → pos 0 ≤ℤ x → x ≤ℤ pos 10 → int32 x ≡ x
int32_kept (pos n) low high = int32_small n (omega arith)
int32_kept (negsuc n) low high = absurd (omega arith)

min_range :
    (a b lower upper : ℤ)
    → lower ≤ℤ a
    → lower ≤ℤ b
    → a ≤ℤ upper
    → (lower ≤ℤ min a b) × ((min a b ≤ℤ upper) × ((min a b ≤ℤ a) × (min a b ≤ℤ b)))
unfolding min
min_range a b lower upper la lb ua = ground arith

batch_limit_value :
    (config : Config) (max : ℤ) (available : ℕ)
    → batch_limit config max available ≡ (
        if ltb 0 available
        then int32 (min (min config.batch_size max) (pos available))
        else int32 (min config.batch_size max))
unfolding batch_limit
batch_limit_value config max available = refl

-- With a batch size from 1 to 10, as a broker that was made has it, and a positive limit, a batch
-- asks for 1 to 10 messages, as SQS wants it, and for no more than the limit, nor than the number of
-- available groups if there are any.
pub batch_limit_range :
    (config : Config) (max : ℤ) (available : ℕ)
    → pos 1 ≤ℤ max
    → pos 1 ≤ℤ config.batch_size
    → config.batch_size ≤ℤ pos 10
    → let n = batch_limit config max available in
      (pos 1 ≤ℤ n) × ((n ≤ℤ pos 10) × ((n ≤ℤ max) × ((available ≡ 0) ⊎ (n ≤ℤ pos available))))
batch_limit_range config max available h low high =
    let size = min config.batch_size max in
    let (l, (u, (_, m))) = min_range config.batch_size max (pos 1) (pos 10) low h high in
    elim (Bool-cases (ltb 0 available)) [
      | inl some_group ↦
          let (l', (u', (s, a))) =
            min_range size (pos available) (pos 1) (pos 10) l (ground arith) u in
          rw (batch_limit_value, some_group, int32_kept (min size (pos available)) (omega arith) u')
            (l', (u', (omega arith, inr a)))
      | inr no_group ↦
          rw (batch_limit_value, no_group, int32_kept size (omega arith) u)
            (l, (u, (m, inl (ground arith))))
    ]
