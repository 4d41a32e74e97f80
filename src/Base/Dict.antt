-- ===== src/Base/Dict.antt =====
-- Go's maps, as association lists with at most one entry for a key. Go visits the entries in an
-- unspecified order; the order of the list stands for the order of one run.
use truenas_incus_ctl.Base.Conditions.{if◌then◌else◌}
use truenas_incus_ctl.Base.Equality.{Comparable, ◌==◌, eq_refl}
use mathlib.Core.Path.{◌≡◌, refl}
use mathlib.Core.Logic.{◌≢◌, ◌⊎◌}
use mathlib.Core.Bool.{Bool, true, false}
use mathlib.Core.Option.{Option, none, some}
use mathlib.Core.List.{List, [], ◌∷◌}
use native.Mathlib.Omega.{arith}

abbrev pub Dict {ℓ κ} : Type ℓ → Type κ → Type (ℓ ⊔ κ)
Dict K V = List (K × V)

abbrev pub keys {ℓ κ} : {K : Type ℓ} {V : Type κ} → Dict K V → List K
keys [] = []
keys ((k, _) ∷ d) = k ∷ keys d

module _ {ℓ κ} {K : Type ℓ} {V : Type κ} ⦃e : Comparable K⦄ where
  -- `v, exists := d[k]`
  unfoldable pub lookup : K → Dict K V → Option V
  lookup k [] = none
  lookup k ((j, v) ∷ d) = if j == k then some v else lookup k d

  -- `d[k] = v`
  unfoldable pub insert : K → V → Dict K V → Dict K V
  insert k v [] = (k, v) ∷ []
  insert k v ((j, w) ∷ d) = if j == k then (k, v) ∷ d else (j, w) ∷ insert k v d

  -- `delete(d, k)`
  unfoldable pub erase : K → Dict K V → Dict K V
  erase k [] = []
  erase k ((j, w) ∷ d) = let rest = erase k d in if j == k then rest else (j, w) ∷ rest

  -- `_, exists := d[k]`
  unfoldable pub has : K → Dict K V → Bool
  unfolding lookup
  has k d = elim (lookup k d) [ none ↦ false | some _ ↦ true ]

  pub lookup-insert :
      (k j : K) (v : V) (d : Dict K V)
      → lookup j (insert k v d) ≡ (if k == j then some v else lookup j d)
  unfolding lookup insert
  lookup-insert k j v [] = refl
  lookup-insert k j v ((i, w) ∷ d) =
      ground (arith, e.beq_iff k j, e.beq_iff i k, e.beq_iff i j, lookup-insert k j v d)

  pub lookup-erase :
      (k j : K) (d : Dict K V) → lookup j (erase k d) ≡ (if k == j then none else lookup j d)
  unfolding lookup erase
  lookup-erase k j [] = ground arith
  lookup-erase k j ((i, w) ∷ d) =
      ground (arith, e.beq_iff k j, e.beq_iff i k, e.beq_iff i j, lookup-erase k j d)

  pub lookup-insert_self : (k : K) (v : V) (d : Dict K V) → lookup k (insert k v d) ≡ some v
  lookup-insert_self k v d = simp (lookup-insert, eq_refl)

  pub lookup-erase_self : (k : K) (d : Dict K V) → lookup k (erase k d) ≡ none
  lookup-erase_self k d = simp (lookup-erase, eq_refl)

  pub lookup-insert_ne :
      (k j : K) (v : V) (d : Dict K V) → k ≢ j → lookup j (insert k v d) ≡ lookup j d
  lookup-insert_ne k j v d h = ground (arith, e.beq_iff k j, lookup-insert k j v d)

  pub lookup-erase_ne : (k j : K) (d : Dict K V) → k ≢ j → lookup j (erase k d) ≡ lookup j d
  lookup-erase_ne k j d h = ground (arith, e.beq_iff k j, lookup-erase k j d)

  pub lookup-insert_cases :
      (k j : K) (v w : V) (d : Dict K V)
      → lookup j (insert k v d) ≡ some w
      → ((k ≡ j) × (v ≡ w)) ⊎ (lookup j d ≡ some w)
  lookup-insert_cases k j v w d h = ground (arith, e.beq_iff k j, lookup-insert k j v d)

  pub lookup-erase_kept :
      (k j : K) (w : V) (d : Dict K V) → lookup j (erase k d) ≡ some w → lookup j d ≡ some w
  lookup-erase_kept k j w d h = ground (arith, lookup-erase k j d)
