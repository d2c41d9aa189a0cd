-- ===== src/Pool/Goroutines/Totals.antt =====
-- Totals over the goroutines of the pool, and invariants of a run.
use celery_to_go.Prelude.{ℕ, zero, suc, String, ◌+◌, ◌≡◌, List, [], ◌∷◌, ◌++◌, arith, ap}
use celery_to_go.Prelude.Int.{ℤ, pos, ◌+ℤ◌, int_laws, parts_of_eq}
use celery_to_go.Pool.Goroutines.{
  Pc, System, Step, Run, none_yet, then, workers, waiting, launching,
}

unfoldable pub total : (Pc → ℕ) → List Pc → ℕ
total w [] = 0
total w (pc ∷ pcs) = w pc + total w pcs

pub total-append :
    (w : Pc → ℕ) (before after : List Pc)
    → total w (before ++ after) ≡ total w before + total w after
unfolding total
total-append w [] after = omega arith
total-append w (pc ∷ before) after = omega (arith, total-append w before after)

pub total-middle :
    (w : Pc → ℕ) (before after : List Pc) (pc : Pc)
    → total w (before ++ pc ∷ after) ≡ total w before + w pc + total w after
unfolding total
total-middle w before after pc = omega (arith, total-append w before (pc ∷ after))

pub total-workers : (w : Pc → ℕ) (n : ℕ) → w waiting ≡ 0 → total w (workers n) ≡ 0
unfolding total workers
total-workers w zero h = omega arith
total-workers w (suc n) h = omega (arith, h, total-workers w n h)

pub total-launch :
    (w : Pc → ℕ) (rounds n : ℕ)
    → w waiting ≡ 0
    → w (launching rounds) ≡ 0
    → total w (launching rounds ∷ workers n) ≡ 0
unfolding total
total-launch w rounds n h h' = omega (arith, h', total-workers w n h)

-- A counter that is the total over the goroutines, and changes as one of them does.
pub counter-total :
    (w : Pc → ℕ) (before after : List Pc) (pc pc' : Pc) {pcs : List Pc} {a b : ℤ}
    → pcs ≡ before ++ pc ∷ after
    → b +ℤ pos (w pc) ≡ a +ℤ pos (w pc')
    → a ≡ pos (total w pcs)
    → b ≡ pos (total w (before ++ pc' ∷ after))
counter-total w before after pc pc' here charged h =
    let whole = ap (total w) here in
    omega (
      int_laws,
      parts_of_eq h,
      parts_of_eq charged,
      total-middle w before after pc,
      total-middle w before after pc',
    )

-- What every step keeps holds after a run.
pub Run-keeps :
    {uuids : ℕ → String} (P : System uuids → Type 0)
    → ((s t : System uuids) → Step uuids s t → P s → P t)
    → (s t : System uuids) → Run uuids s t
    → P s
    → P t
Run-keeps P kept s t none_yet h = h
Run-keeps P kept s t (then {t = u} run step) h = kept u t step (Run-keeps P kept s u run h)
