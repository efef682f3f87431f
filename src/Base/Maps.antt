-- ===== src/Base/Maps.antt =====
-- Go's maps as association lists over keys with a decided equality.
use mathlib.Core.Path.{◌≡◌, refl}
use mathlib.Core.Bool.{Bool, true, false}
use mathlib.Core.Logic.{◌≢◌, inl, inr}
use mathlib.Core.Option.{Option, none, some}
use mathlib.Core.List.{List, [], ◌∷◌}
use native.Mathlib.Omega.{arith}
use sbnet.Base.Tests.{Bool-cases, Comparable, ◌==◌, if◌then◌else◌}

abbrev pub Map {ℓ κ} : Type ℓ → Type κ → Type (ℓ ⊔ κ)
Map K V = List (K × V)

pub beq_refl {ℓ} : {K : Type ℓ} ⦃e : Comparable K⦄ (k : K) → (k == k) ≡ true
beq_refl ⦃e⦄ k = (e.equal_iff k k).1 refl

pub beq_false {ℓ} : {K : Type ℓ} ⦃e : Comparable K⦄ (i j : K) → i ≢ j → (i == j) ≡ false
beq_false ⦃e⦄ i j h = elim (Bool-cases (i == j)) [
  | inl same ↦ absurd (h ((e.equal_iff i j).0 same))
  | inr other ↦ other
]

module _ {ℓ κ} {K : Type ℓ} {V : Type κ} ⦃e : Comparable K⦄ where
  -- `v, ok := m[k]`
  unfoldable pub lookup : K → Map K V → Option V
  lookup k [] = none
  lookup k ((j, v) ∷ m) = if j == k then some v else lookup k m

  -- `m[k] = v`
  unfoldable pub insert : K → V → Map K V → Map K V
  insert k v [] = (k, v) ∷ []
  insert k v ((j, w) ∷ m) = if j == k then (k, v) ∷ m else (j, w) ∷ insert k v m

  -- `delete(m, k)`
  unfoldable pub delete : K → Map K V → Map K V
  delete k [] = []
  delete k ((j, v) ∷ m) = let rest = delete k m in if j == k then rest else (j, v) ∷ rest

  pub lookup-insert :
      (key at : K) (v : V) (m : Map K V)
      → lookup at (insert key v m) ≡ (if key == at then some v else lookup at m)
  unfolding lookup insert
  lookup-insert key at v [] = refl
  lookup-insert key at v ((i, w) ∷ m) =
      ground
        (arith, e.equal_iff key at, e.equal_iff i key, e.equal_iff i at, lookup-insert key at v m)

  pub lookup-delete :
      (k j : K) (m : Map K V) → lookup j (delete k m) ≡ (if k == j then none else lookup j m)
  unfolding lookup delete
  lookup-delete k j [] = ground arith
  lookup-delete k j ((i, w) ∷ m) =
      ground (arith, e.equal_iff k j, e.equal_iff i k, e.equal_iff i j, lookup-delete k j m)

  pub lookup-insert_self : (k : K) (v : V) (m : Map K V) → lookup k (insert k v m) ≡ some v
  lookup-insert_self k v m = simp (lookup-insert, beq_refl)

  pub lookup-delete_self : (k : K) (m : Map K V) → lookup k (delete k m) ≡ none
  lookup-delete_self k m = simp (lookup-delete, beq_refl)

  -- A write that happens only if the held value passes a test.
  pub lookup-insert_if :
      (test : Option V → Bool) (k j : K) (v : V) (m : Map K V)
      → lookup j (if test (lookup k m) then insert k v m else m)
        ≡ (if k == j then if test (lookup j m) then some v else lookup j m else lookup j m)
  lookup-insert_if test k j v m = ground (arith, e.equal_iff k j, lookup-insert k j v m)
