-- ===== src/Prelude/Dict.antt =====
-- Go's `map[string]V`. Clients see the laws below. Assignment replaces an entry in place or adds
-- one; the order in which `range` visits the keys is no part of it, and comes in as an argument
-- where the program ranges over a map.
use Prim.Native.Nat.{ℕ, suc, ◌≤◌}
use Prim.Native.String.{String}
use mathlib.Core.Path.{◌≡◌, refl}
use mathlib.Core.Bool.{Bool, true, false}
use mathlib.Core.Option.{Option, none, some}
use mathlib.Core.List.{List, [], ◌∷◌}
use native.Mathlib.Omega.{arith}
use text.Mathlib.Text.{◌==◌}
use text.Mathlib.TextEquality.{eq_iff}
use celery_to_go.Prelude.Tests.{if◌then◌else◌}
use celery_to_go.Prelude.Lists.{length}

abbrev Entries {ℓ} : Type ℓ → Type ℓ
Entries V = List (String × V)

pub record Dict {ℓ} (V : Type ℓ) : Type ℓ where
  entries : Entries V

module _ {ℓ} {V : Type ℓ} where
  find_entry : Entries V → String → Option V
  find_entry [] k = none
  find_entry ((j, v) ∷ es) k = if j == k then some v else find_entry es k

  set_entry : Entries V → String → V → Entries V
  set_entry [] k v = (k, v) ∷ []
  set_entry ((j, w) ∷ es) k v =
      let rest = set_entry es k v in if j == k then (k, v) ∷ es else (j, w) ∷ rest

  drop_entry : Entries V → String → Entries V
  drop_entry [] k = []
  drop_entry ((j, w) ∷ es) k = let rest = drop_entry es k in if j == k then rest else (j, w) ∷ rest

  entry_keys : Entries V → List String
  entry_keys [] = []
  entry_keys ((j, w) ∷ es) = j ∷ entry_keys es

  unfoldable pub empty : Dict V
  empty = record { entries = [] }

  -- `m[k]`
  unfoldable pub get : Dict V → String → Option V
  unfolding find_entry
  get d k = find_entry d.entries k

  -- `m[k] = v`
  unfoldable pub put : Dict V → String → V → Dict V
  unfolding set_entry
  put d k v = record { entries = set_entry d.entries k v }

  -- `delete(m, k)`
  unfoldable pub delete : Dict V → String → Dict V
  unfolding drop_entry
  delete d k = record { entries = drop_entry d.entries k }

  unfoldable pub keys : Dict V → List String
  unfolding entry_keys
  keys d = entry_keys d.entries

  -- `len(m)`
  unfoldable pub size : Dict V → ℕ
  size d = length d.entries

  unfoldable pub has : Dict V → String → Bool
  unfolding get
  has d k = elim (get d k) [ none ↦ false | some _ ↦ true ]

  find-set :
      (es : Entries V) (k j : String) (v : V)
      → find_entry (set_entry es k v) j ≡ (if k == j then some v else find_entry es j)
  unfolding find_entry set_entry
  find-set [] k j v = refl
  find-set ((i, w) ∷ es) k j v =
      ground (arith, eq_iff i k, eq_iff i j, eq_iff k j, find-set es k j v)

  find-drop :
      (es : Entries V) (k j : String)
      → find_entry (drop_entry es k) j ≡ (if k == j then none else find_entry es j)
  unfolding find_entry drop_entry
  find-drop [] k j = ground arith
  find-drop ((i, w) ∷ es) k j = ground (arith, eq_iff i k, eq_iff i j, eq_iff k j, find-drop es k j)

  length-set :
      (es : Entries V) (k : String) (v : V)
      → length (set_entry es k v)
        ≡ elim (find_entry es k) [ none ↦ suc (length es) | some _ ↦ length es ]
  unfolding find_entry set_entry
  length-set [] k v = refl
  length-set ((i, w) ∷ es) k v = ground (arith, length-set es k v)

  length-drop : (es : Entries V) (k : String) → length (drop_entry es k) ≤ length es
  unfolding drop_entry
  length-drop [] k = omega arith
  length-drop ((i, w) ∷ es) k = ground (arith, length-drop es k)

  pub get-put :
      (d : Dict V) (i k : String) (v : V) → get (put d i v) k ≡ (if i == k then some v else get d k)
  unfolding get put
  get-put d i k v = find-set d.entries i k v

  pub get-delete :
      (d : Dict V) (k j : String) → get (delete d k) j ≡ (if k == j then none else get d j)
  unfolding get delete
  get-delete d k j = find-drop d.entries k j

  -- Assignment to a new key adds one entry, to an old key none.
  pub size-put :
      (d : Dict V) (k : String) (v : V)
      → size (put d k v) ≡ elim (get d k) [ none ↦ suc (size d) | some _ ↦ size d ]
  unfolding get put size
  size-put d k v = length-set d.entries k v

  pub size-delete : (d : Dict V) (k : String) → size (delete d k) ≤ size d
  unfolding delete size
  size-delete d k = length-drop d.entries k

pub get-empty {ℓ} : {V : Type ℓ} (k : String) → get (empty {V = V}) k ≡ none
unfolding get empty
get-empty k = refl

pub ruleset dict_laws = (get-empty, get-put, get-delete)
