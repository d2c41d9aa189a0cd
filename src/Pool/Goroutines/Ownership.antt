-- ===== src/Pool/Goroutines/Ownership.antt =====
-- The processes that the goroutines of the pool hold, while they interleave.
use celery_to_go.Prelude.{
  ℕ, suc, String, ◌+◌, ◌≤◌, ◌<◌, ◌≡◌, refl, ap, subst, List, [], ◌∷◌, ◌++◌, ◌⊎◌, some, arith,
  Option-cases, Bool-cases, inl, inr, ◌==◌, if◌then◌else◌, eq_iff,
}
use celery_to_go.Prelude.Int.{pos_part}
use celery_to_go.Prelude.Dict
use celery_to_go.Pool.Types.{PoolConfig}
use celery_to_go.Pool.Process.State.{Process}
use celery_to_go.Pool.Config.{ProcessPool, new_process_pool}
use celery_to_go.Pool.Manager.State.{store_process, remove_first, pop_idle}
use celery_to_go.Pool.Goroutines.{
  Pc, looking, taking, holding, updating, recording, deciding, returning, inserting, counting,
  offering, Jump, receive, Shared, Move, jump, execute, stop, pop, remove, give_back, offer, start,
  System, Step, move, close, Run, launch,
}
use celery_to_go.Pool.Goroutines.Totals.{total, total-middle, total-launch, Run-keeps}

abbrev pub is : String → String → ℕ
is i id = if i == id then 1 else 0

-- A goroutine that has the process to itself: from the idle list to the answer of its task and back
-- to the list, or until it recycles the process; and the one that creates it.
unfoldable pub owns : String → Pc → ℕ
owns id (looking i) = is i id
owns id (taking i) = is i id
owns id (holding i) = is i id
owns id (updating i) = is i id
owns id (recording i p) = is i id
owns id (deciding i) = is i id
owns id (returning i) = is i id
owns id (inserting p k) = is p.id id
owns id (counting p k) = is p.id id
owns id (offering p k) = is p.id id
owns id _ = 0

-- How often a process is in the idle list.
unfoldable pub occurs : String → List String → ℕ
occurs id [] = 0
occurs id (i ∷ ids) = is i id + occurs id ids

occurs-append :
    (id : String) (ids js : List String) → occurs id (ids ++ js) ≡ occurs id ids + occurs id js
unfolding occurs
occurs-append id [] js = omega arith
occurs-append id (i ∷ ids) js = omega (arith, occurs-append id ids js)

occurs-remove_first :
    (id j : String) (ids : List String) → occurs id (remove_first j ids) ≤ occurs id ids
unfolding occurs remove_first
occurs-remove_first id j [] = omega arith
occurs-remove_first id j (i ∷ ids) = ground (arith, occurs-remove_first id j ids)

occurs-pop_idle :
    (id i : String) (ids js : List String)
    → pop_idle ids ≡ some (i, js)
    → occurs id ids ≡ is i id + occurs id js
unfolding occurs pop_idle
occurs-pop_idle id i [] js e = cc
occurs-pop_idle id i (k ∷ ids) js e = ground arith

idle-store :
    (p : Process) (pool : ProcessPool) → (store_process p pool).idle_processes ≡ pool.idle_processes
unfolding store_process
idle-store p pool = elim (Option-cases (Dict.get pool.processes p.id)) [
  | inl gone ↦ rw (gone, store_process) refl
  | inr (old, found) ↦ rw (found, store_process) refl
]

Jump-owns : (id : String) {pc pc' : Pc} → Jump pc pc' → owns id pc' ≤ owns id pc
unfolding owns
Jump-owns id receive = omega arith
Jump-owns id _ = omega arith

abbrev idle_ids : Shared → List String
idle_ids s = s.pool.idle_processes

module _ (uuids : ℕ → String) where
  -- A move hands a process on, or gives one up, or draws a new identifier.
  abbrev Handed : String → Pc → Shared → Pc → Shared → Type 0
  Handed id pc s pc' s' =
      ((s.drawn ≤ s'.drawn)
        × (owns id pc' + occurs id (idle_ids s') ≤ owns id pc + occurs id (idle_ids s)))
      ⊎ ((s'.drawn ≡ suc s.drawn)
          × (owns id pc' + occurs id (idle_ids s')
              ≤ is (uuids s.drawn) id + occurs id (idle_ids s)))

  Move-Handed :
      (id : String) {pc : Pc} {s : Shared} {pc' : Pc} {s' : Shared}
      → Move uuids pc s pc' s'
      → Handed id pc s pc' s'
  unfolding owns
  Move-Handed id (jump j) = inl (omega arith, omega (arith, Jump-owns id j))
  Move-Handed id {s = s} (execute i p e) =
      let same = ap (occurs id) (idle-store p s.pool) in inl (omega arith, omega arith)
  Move-Handed id {s = s} (stop i p c e) =
      let same = ap (occurs id) (idle-store p s.pool) in inl (omega arith, omega arith)
  Move-Handed id {s = s} (pop i ids e) =
      inl (omega arith, omega (arith, occurs-pop_idle id i (idle_ids s) ids e))
  Move-Handed id {s = s} (remove i p c) =
      inl (omega arith, omega (arith, occurs-remove_first id i (idle_ids s)))
  Move-Handed id {s = s} (give_back i) =
      inl (omega arith, unfold occurs in omega (arith, occurs-append id (idle_ids s) (i ∷ [])))
  Move-Handed id {s = s} (offer p k) =
      inl (omega arith, unfold occurs in omega (arith, occurs-append id (idle_ids s) (p.id ∷ [])))
  Move-Handed id {s = s} (start k p e) = inr (refl, rw e (omega arith))
  Move-Handed id _ = inl (omega arith, omega arith)

  abbrev copies : String → System uuids → ℕ
  copies id s = total (owns id) s.goroutines + occurs id (idle_ids s.shared)

  record IsOwned (s : System uuids) : Type 0 where
    alone : (id : String) → copies id s ≤ 1
    unknown : (n : ℕ) → s.shared.drawn ≤ n → copies (uuids n) s ≡ 0

  module _ (distinct : (m n : ℕ) → uuids m ≡ uuids n → m ≡ n) where
    other_uuid : (m n : ℕ) → m < n → is (uuids m) (uuids n) ≡ 0
    other_uuid m n h = elim (Bool-cases (uuids m == uuids n)) [
      | inl same ↦ let equal = distinct m n ((eq_iff (uuids m) (uuids n)).0 same) in omega arith
      | inr other ↦ rw other refl
    ]

    Step-copies :
        (s t : System uuids) (id : String)
        → Step uuids s t
        → ((s.shared.drawn ≤ t.shared.drawn) × (copies id t ≤ copies id s))
          ⊎ ((t.shared.drawn ≡ suc s.shared.drawn)
              × (copies id t ≤ is (uuids s.shared.drawn) id + copies id s))
    Step-copies s t id (move {pc = pc} {pc' = pc'} before after here m) =
        let whole = ap (total (owns id)) here in
        let left = total-middle (owns id) before after pc in
        let right = total-middle (owns id) before after pc' in
        elim (Move-Handed id m) [
          | inl (later, fewer) ↦ inl (later, omega arith)
          | inr (next, one) ↦ inr (next, omega arith)
        ]
    Step-copies s t id (close open_) = inl (omega arith, omega arith)

    Step-IsOwned : (s t : System uuids) → Step uuids s t → IsOwned s → IsOwned t
    Step-IsOwned s t step h = record {
      alone = λ id. elim (Step-copies s t id step) [
        | inl (later, fewer) ↦ omega (arith, h.alone id)
        | inr (next, one) ↦ elim (Bool-cases (uuids s.shared.drawn == id)) [
          | inl same ↦
              let drawn_now = (eq_iff (uuids s.shared.drawn) id).0 same in
              let new =
                subst (λ i. copies i s ≡ 0) drawn_now (h.unknown s.shared.drawn (omega arith)) in
              omega (arith, rw same at one)
          | inr other ↦ omega (arith, h.alone id, rw other at one)
        ]
      ];
      unknown = λ n above. elim (Step-copies s t (uuids n) step) [
        | inl (later, fewer) ↦ omega (arith, h.unknown n (omega arith))
        | inr (next, one) ↦
            omega (arith, h.unknown n (omega arith), other_uuid s.shared.drawn n (omega arith))
      ];
    }

    launch-IsOwned : (config : PoolConfig) → IsOwned (launch uuids config)
    launch-IsOwned config =
        let pool = new_process_pool config in
        let m = pos_part pool.config.min_processes in
        let n = pos_part pool.config.max_processes in
        let none_owned =
          λ (id : String). total-launch (owns id) m n (unfold owns in refl) (unfold owns in refl) in
        record {
          alone = λ id. unfold occurs new_process_pool in omega (arith, none_owned id);
          unknown = λ k h. unfold occurs new_process_pool in omega (arith, none_owned (uuids k));
        }

-- If no two of the identifiers that `uuid.New` hands out are equal, then however the goroutines of a
-- pool that is started from any configuration interleave, every process is either once in the idle
-- list, or owned by one goroutine, or neither: a goroutine owns a process from its removal from the
-- idle list until it has given it back or has begun to recycle it, and from its making until it has
-- offered it. So no two workers ever execute a task on one process. What a goroutine that recycles a
-- process does to it, the monitor above all, is no ownership and is not excluded.
pub Run-exclusive :
    (uuids : ℕ → String) (config : PoolConfig) (s : System uuids) (id : String)
    → ((m n : ℕ) → uuids m ≡ uuids n → m ≡ n)
    → Run uuids (launch uuids config) s
    → total (owns id) s.goroutines + occurs id s.shared.pool.idle_processes ≤ 1
Run-exclusive uuids config s id distinct run =
    let h =
      Run-keeps (IsOwned uuids) (Step-IsOwned uuids distinct) (launch uuids config) s run
        (launch-IsOwned uuids distinct config) in
    h.alone id
