-- ===== src/Prelude/Maps.antt =====
-- Rust's `HashMap` as an association list. No theorem depends on the order of its entries.
use mathlib.Core.Path.{◌≡◌, refl}
use mathlib.Core.Logic.{inl, inr}
use mathlib.Core.Bool.{Bool, true, false}
use mathlib.Core.Option.{Option, none, some}
use mathlib.Core.List.{List, [], ◌∷◌, Memᴰ}
use native.Mathlib.Omega.{arith}
use kubectl_nvim.Prelude.Tests.{Eq, ◌==◌, if◌then◌else◌, Bool-cases}

abbrev pub HashMap {ℓ κ} : Type ℓ → Type κ → Type (ℓ ⊔ κ)
HashMap K V = List (K × V)

abbrev pub is_some {ℓ} : {A : Type ℓ} → Option A → Bool
is_some none = false
is_some (some a) = true

module _ {ℓ κ} {K : Type ℓ} {V : Type κ} ⦃e : Eq K⦄ where
  unfoldable pub lookup : K → HashMap K V → Option V
  lookup k [] = none
  lookup k ((j, v) ∷ entries) = let rest = lookup k entries in if j == k then some v else rest

  unfoldable pub insert : K → V → HashMap K V → HashMap K V
  insert k v [] = (k, v) ∷ []
  insert k v ((j, old) ∷ entries) =
      let rest = insert k v entries in if j == k then (k, v) ∷ entries else (j, old) ∷ rest

  unfoldable pub remove : K → HashMap K V → HashMap K V
  remove k [] = []
  remove k ((j, old) ∷ entries) =
      let rest = remove k entries in if j == k then rest else (j, old) ∷ rest

  unfoldable pub contains_key : K → HashMap K V → Bool
  unfolding lookup
  contains_key k entries = is_some (lookup k entries)

  pub lookup-insert :
      (k j : K) (v : V) (entries : HashMap K V)
      → lookup j (insert k v entries) ≡ (if k == j then some v else lookup j entries)
  unfolding lookup insert
  lookup-insert k j v [] = refl
  lookup-insert k j v ((i, old) ∷ entries) =
      ground (arith, e.beq_iff k j, e.beq_iff i k, e.beq_iff i j, lookup-insert k j v entries)

  pub lookup-remove :
      (k j : K) (entries : HashMap K V)
      → lookup j (remove k entries) ≡ (if k == j then none else lookup j entries)
  unfolding lookup remove
  lookup-remove k j [] = ground arith
  lookup-remove k j ((i, old) ∷ entries) =
      ground (arith, e.beq_iff k j, e.beq_iff i k, e.beq_iff i j, lookup-remove k j entries)

  pub mem_of_lookup :
      (k : K) (entries : HashMap K V) {v : V} → lookup k entries ≡ some v → Memᴰ (k, v) entries
  unfolding lookup
  mem_of_lookup k [] h = ground arith
  mem_of_lookup k ((j, old) ∷ entries) {v} h = elim (Bool-cases (j == k)) [
    | inl same ↦ Memᴰ.head (ground (arith, e.beq_iff j k))
    | inr other ↦ Memᴰ.tail (mem_of_lookup k entries (rw other at h))
  ]
