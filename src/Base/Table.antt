-- ===== src/Base/Table.antt =====
-- An unordered_map as the list of its entries; `same` compares two keys. The order of the entries is
-- never read where a program keeps one of these; here a new entry goes to the end.
use Prim.Native.Nat.{ℕ, ◌+◌}
use mathlib.Core.Path.{◌≡◌, refl}
use mathlib.Core.Bool.{Bool, true, false}
use mathlib.Core.Option.{Option, none, some}
use mathlib.Core.List.{List, [], ◌∷◌}
use rtmp_core.Base.Tests.{if◌then◌else◌}
use rtmp_core.Base.Lists.{length}
use native.Mathlib.Omega.{arith}

abbrev pub Table {ℓ κ} : Type ℓ → Type κ → Type (ℓ ⊔ κ)
Table K A = List (K × A)

module _ {ℓ κ} {K : Type ℓ} {A : Type κ} (same : K → K → Bool) where
  unfoldable pub lookup : K → Table K A → Option A
  lookup k [] = none
  lookup k ((j, v) ∷ t) = if same j k then some v else lookup k t

  -- `emplace`, or an assignment to the entry that is there.
  unfoldable pub set : K → A → Table K A → Table K A
  set k v [] = (k, v) ∷ []
  set k v ((j, old) ∷ t) = let rest = set k v t in if same j k then (j, v) ∷ t else (j, old) ∷ rest

  unfoldable pub remove : K → Table K A → Table K A
  remove k [] = []
  remove k ((j, v) ∷ t) = let rest = remove k t in if same j k then t else (j, v) ∷ rest

  -- The sum of a measure over the entries.
  unfoldable pub total : (A → ℕ) → Table K A → ℕ
  total measure [] = 0
  total measure ((j, v) ∷ t) = measure v + total measure t

  pub total-set_new :
      (measure : A → ℕ) (k : K) (v : A) (t : Table K A)
      → lookup k t ≡ none
      → total measure (set k v t) ≡ total measure t + measure v
  unfolding lookup set total
  total-set_new measure k v [] e = omega arith
  total-set_new measure k v ((j, old) ∷ t) e = ground (arith, total-set_new measure k v t)

  pub total-set_old :
      (measure : A → ℕ) (k : K) (v old : A) (t : Table K A)
      → lookup k t ≡ some old
      → total measure (set k v t) + measure old ≡ total measure t + measure v
  unfolding lookup set total
  total-set_old measure k v old [] e = cc
  total-set_old measure k v old ((j, other) ∷ t) e = ground (arith, total-set_old measure k v old t)

  pub total-remove :
      (measure : A → ℕ) (k : K) (old : A) (t : Table K A)
      → lookup k t ≡ some old
      → total measure (remove k t) + measure old ≡ total measure t
  unfolding lookup remove total
  total-remove measure k old [] e = cc
  total-remove measure k old ((j, other) ∷ t) e = ground (arith, total-remove measure k old t)

  pub length-set_new :
      (k : K) (v : A) (t : Table K A) → lookup k t ≡ none → length (set k v t) ≡ length t + 1
  unfolding lookup set
  length-set_new k v [] e = omega arith
  length-set_new k v ((j, old) ∷ t) e = ground (arith, length-set_new k v t)

  pub length-set_old :
      (k : K) (v old : A) (t : Table K A) → lookup k t ≡ some old → length (set k v t) ≡ length t
  unfolding lookup set
  length-set_old k v old [] e = cc
  length-set_old k v old ((j, other) ∷ t) e = ground (arith, length-set_old k v old t)

  pub length-remove :
      (k : K) (old : A) (t : Table K A) → lookup k t ≡ some old → length (remove k t) + 1 ≡ length t
  unfolding lookup remove
  length-remove k old [] e = cc
  length-remove k old ((j, other) ∷ t) e = ground (arith, length-remove k old t)

  module _ (same_refl : (k : K) → same k k ≡ true) where
    pub lookup-set : (k : K) (v : A) (t : Table K A) → lookup k (set k v t) ≡ some v
    unfolding lookup set
    lookup-set k v [] = rw (same_refl k) refl
    lookup-set k v ((j, old) ∷ t) = ground (arith, lookup-set k v t)

  module _ (same_sound : (j k : K) → same j k ≡ true → j ≡ k) where
    pub lookup-set_other :
        (j k : K) (v : A) (t : Table K A) → same k j ≡ false → lookup j (set k v t) ≡ lookup j t
    unfolding lookup set
    lookup-set_other j k v [] e = rw e refl
    lookup-set_other j k v ((i, old) ∷ t) e =
        ground (arith, lookup-set_other j k v t, same_sound i k)
