-- ===== src/Lineage/Listing/Gather.antt =====
-- A loop that pushes to a list and may panic.
use mathlib.Core.List.Memᴰ
use mathlib.Core.Path.{subst}
use kubectl_nvim.Prelude.{
  ◌≡◌, ◌↔◌, refl, inl, inr, Option, some, List, [], ◌∷◌, ◌++◌, Memᴰ, Memᴰ-append,
}
use kubectl_nvim.Lineage.Tree.Link.{◌>>=◌}

unfoldable pub gather : {A B : Type 0} → (A → Option (List B)) → List A → Option (List B)
gather f [] = some []
gather f (x ∷ xs) = f x >>= λ bs. gather f xs >>= λ rest. some (bs ++ rest)

module _ {A B : Type 0} (f : A → Option (List B)) (P : A → B → Type 0) where
  -- Each round pushes just what `P` tells.
  abbrev pub Pushes : A → Type 0
  Pushes x = (bs : List B) × (f x ≡ some bs) × ((b : B) → Memᴰ b bs ↔ P x b)

  pub gather_total :
      (xs : List A)
      → ((x : A) → Memᴰ x xs → Pushes x)
      → (ys : List B) × (gather f xs ≡ some ys)
        × ((b : B) → Memᴰ b ys ↔ ((x : A) × Memᴰ x xs × P x b))
  unfolding gather
  gather_total [] h =
      ([], refl, λ b. (λ m. absurd (Memᴰ.not-nil m), λ (x, m, _). absurd (Memᴰ.not-nil m)))
  gather_total (x ∷ xs) h =
      let (bs, e, told) = h x (Memᴰ.head refl) in
      let (rest, e', later) = gather_total xs (λ y m. h y (Memᴰ.tail m)) in
      (
        bs ++ rest,
        simp (e, e') refl,
        λ b. (
          λ m. elim ((Memᴰ-append b bs rest).0 m) [
            | inl n ↦ (x, Memᴰ.head refl, (told b).0 n)
            | inr n ↦ let (y, at, p) = (later b).0 n in (y, Memᴰ.tail at, p)
          ],
          λ (y, at, p). elim (Memᴰ.cases_cons at) [
            | inl same ↦ Memᴰ.append_left rest ((told b).1 (subst (λ z. P z b) same p))
            | inr more ↦ Memᴰ.append_right bs ((later b).1 (y, more, p))
          ],
        ),
      )
