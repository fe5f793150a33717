-- ===== src/Prelude/Dict.antt =====
-- Python's dict as an association list in the order of insertion.
use mathlib.Core.Path.{◌≡◌, refl}
use mathlib.Core.Logic.{inl, inr}
use mathlib.Core.Bool.{Bool, true, false, ◌||◌}
use mathlib.Core.List.{List, [], ◌∷◌}
use mathlib.Core.Option.{Option, none, some}
use native.Mathlib.Omega.{arith}
use bec.Prelude.Tests.{if◌then◌else◌, Eq, ◌==◌, Option-cases}

abbrev pub Dict {ℓ κ} : Type ℓ → Type κ → Type (ℓ ⊔ κ)
Dict K V = List (K × V)

module _ {ℓ κ} {K : Type ℓ} {V : Type κ} ⦃e : Eq K⦄ where
  -- d.get(k)
  unfoldable pub lookup : K → Dict K V → Option V
  lookup k [] = none
  lookup k ((j, v) ∷ d) = if j == k then some v else lookup k d

  -- d[k] = v; a key that is there keeps its place.
  unfoldable pub insert : K → V → Dict K V → Dict K V
  insert k v [] = (k, v) ∷ []
  insert k v ((j, u) ∷ d) = if j == k then (k, v) ∷ d else (j, u) ∷ insert k v d

  -- d.pop(k); keys are distinct, so all its entries are one at most.
  unfoldable pub erase : K → Dict K V → Dict K V
  erase k [] = []
  erase k ((j, u) ∷ d) = if j == k then erase k d else (j, u) ∷ erase k d

  -- k in d
  unfoldable pub has : K → Dict K V → Bool
  has k [] = false
  has k ((j, v) ∷ d) = j == k || has k d

  pub lookup-insert :
      (k j : K) (v : V) (d : Dict K V)
      → lookup j (insert k v d) ≡ (if k == j then some v else lookup j d)
  unfolding lookup insert
  lookup-insert k j v [] = refl
  lookup-insert k j v ((i, u) ∷ d) =
      ground (arith, e.beq_iff k j, e.beq_iff i k, e.beq_iff i j, lookup-insert k j v d)

  pub lookup-insert_self : (k : K) (v : V) (d : Dict K V) → lookup k (insert k v d) ≡ some v
  lookup-insert_self k v d = ground (arith, lookup-insert k k v d, e.beq_iff k k)

  pub lookup-erase :
      (k j : K) (d : Dict K V) → lookup j (erase k d) ≡ (if k == j then none else lookup j d)
  unfolding lookup erase
  lookup-erase k j [] = ground arith
  lookup-erase k j ((i, u) ∷ d) =
      ground (arith, e.beq_iff k j, e.beq_iff i k, e.beq_iff i j, lookup-erase k j d)

  pub has-lookup : (k : K) (d : Dict K V) → has k d ≡ true → (v : V) × (lookup k d ≡ some v)
  unfolding has lookup
  has-lookup k [] h = cc
  has-lookup k ((j, v) ∷ d) h = elim (Option-cases (lookup k d)) [
    | inl q ↦ (v, ground (arith, has-lookup k d))
    | inr (u, q) ↦ (if j == k then v else u, ground arith)
  ]

module _ {ℓ κ} {K : Type ℓ} {V : Type κ} ⦃e : Eq K⦄ where
  -- No key twice, as in every dict.
  abbrev pub IsDict : Dict K V → Type 0
  IsDict [] = Unit {0}
  IsDict ((k, v) ∷ d) = (has k d ≡ false) × IsDict d

  pub has-insert : (k j : K) (v : V) (d : Dict K V) → has j (insert k v d) ≡ (k == j || has j d)
  unfolding has insert
  has-insert k j v [] = refl
  has-insert k j v ((i, u) ∷ d) =
      ground (arith, e.beq_iff k j, e.beq_iff i k, e.beq_iff i j, has-insert k j v d)

  pub insert-IsDict : (k : K) (v : V) (d : Dict K V) → IsDict d → IsDict (insert k v d)
  unfolding has insert
  insert-IsDict k v [] h = (refl, tt)
  insert-IsDict k v ((i, u) ∷ d) h =
      ground (arith, e.beq_iff i k, e.beq_iff k i, has-insert k i v d, insert-IsDict k v d h.1)

  pub has-erase-false : (k j : K) (d : Dict K V) → has j d ≡ false → has j (erase k d) ≡ false
  unfolding has erase
  has-erase-false k j [] h = refl
  has-erase-false k j ((i, u) ∷ d) h = ground (arith, has-erase-false k j d)

  pub erase-IsDict : (k : K) (d : Dict K V) → IsDict d → IsDict (erase k d)
  unfolding has erase
  erase-IsDict k [] h = tt
  erase-IsDict k ((i, u) ∷ d) h = ground (arith, has-erase-false k i d h.0, erase-IsDict k d h.1)

  pub lookup_absent : (k : K) (d : Dict K V) → has k d ≡ false → lookup k d ≡ none
  unfolding has lookup
  lookup_absent k [] h = refl
  lookup_absent k ((i, u) ∷ d) h = ground (arith, lookup_absent k d)
