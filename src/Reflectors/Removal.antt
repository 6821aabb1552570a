-- ===== src/Reflectors/Removal.antt =====
-- store.rs: what shutting reflectors down leaves in the map.
use mathlib.Core.List.Memᴰ
use kubectl_nvim.Prelude.{
  ◌≡◌, refl, sym, ap, ◌∙◌, inl, inr, Text, text_eq, option_eq, pair_eq, ◌==◌, ==_refl, pair_beq_iff,
  Bool-cases, Option-cases, none, some, List, [], ◌∷◌, keep, Memᴰ, Memᴰ-keep, lookup, lookup-remove,
  mem_of_lookup, arith, if◌then◌else◌, Bool, Option, true, false,
}
use kubectl_nvim.Reflectors.Store.{
  ReflectorKey, ReflectorData, StoreMap, World, shut_down, shut_down_each, keys, is_namespaced,
  shutdown_namespaced_reflectors,
}

pub key_of_lookup :
    (k : ReflectorKey) (m : StoreMap) (d : ReflectorData) → lookup k m ≡ some d → Memᴰ k (keys m)
key_of_lookup k m d h = Memᴰ.map _ (mem_of_lookup k m h)

-- After a reflector is shut down its key is free, and the others are as they were.
pub lookup-shut_down :
    (k j : ReflectorKey) (w : World)
    → lookup j (shut_down k w).reflectors ≡ (if k == j then none else lookup j w.reflectors)
unfolding shut_down
lookup-shut_down k j w = elim (Option-cases (lookup k w.reflectors)) [
  | inl free ↦ elim (Bool-cases (k == j)) [
    | inl same ↦
        let both = (pair_beq_iff k j).0 same in
        rw (free, same) (ap (λ i. lookup i w.reflectors) (sym both) ∙ free)
    | inr other ↦ rw (free, other) refl
  ]
  | inr (d, at) ↦ rw at (lookup-remove k j w.reflectors)
]

-- What is still in the map was there.
pub lookup_before :
    (ks : List ReflectorKey) (j : ReflectorKey) (w : World) (d : ReflectorData)
    → lookup j (shut_down_each ks w).reflectors ≡ some d
    → lookup j w.reflectors ≡ some d
lookup_before [] j w d h = h
lookup_before (k ∷ ks) j w d h =
    let before = lookup_before ks j (shut_down k w) d h in ground (arith, lookup-shut_down k j w)

-- And the keys given are free.
pub each_free :
    (ks : List ReflectorKey) (j : ReflectorKey) (w : World)
    → Memᴰ j ks
    → lookup j (shut_down_each ks w).reflectors ≡ none
each_free [] j w m = absurd (Memᴰ.not-nil m)
each_free (k ∷ ks) j w (Memᴰ.head same) =
    elim (Option-cases (lookup j (shut_down_each ks (shut_down k w)).reflectors)) [
      | inl free ↦ free
      | inr (d, at) ↦
          let before = lookup_before ks j (shut_down k w) d at in
          let equal = (pair_beq_iff k j).1 (sym same) in
          absurd (ground (arith, lookup-shut_down k j w))
    ]
each_free (k ∷ ks) j w (Memᴰ.tail m) = each_free ks j (shut_down k w) m

-- No reflector of one namespace is left.
pub namespaced_free :
    (kind ns : Text) (w : World)
    → lookup (kind, some ns) (shutdown_namespaced_reflectors kind w).reflectors ≡ none
unfolding shutdown_namespaced_reflectors
namespaced_free kind ns w =
    let k : ReflectorKey = (kind, some ns) in
    let ks = keep (is_namespaced kind) (keys w.reflectors) in
    elim (Option-cases (lookup k (shut_down_each ks w).reflectors)) [
      | inl free ↦ free
      | inr (d, at) ↦
          let m = key_of_lookup k w.reflectors d (lookup_before ks k w d at) in
          each_free ks k w (
            (Memᴰ-keep (is_namespaced kind) k (keys w.reflectors)).1
              (m, ground (arith, ==_refl kind)))
    ]

-- Keys that are not given stay as they were.
each_kept :
    (p : ReflectorKey → Bool) (ks : List ReflectorKey) (j : ReflectorKey) (w : World)
    → ((k : ReflectorKey) → Memᴰ k ks → p k ≡ true)
    → p j ≡ false
    → lookup j (shut_down_each ks w).reflectors ≡ lookup j w.reflectors
each_kept p [] j w h off = refl
each_kept p (k ∷ ks) j w h off =
    let rest = each_kept p ks j (shut_down k w) (λ i m. h i (Memᴰ.tail m)) off in
    elim (Bool-cases (k == j)) [
      | inl same ↦
          let both = ap p ((pair_beq_iff k j).0 same) in
          let on = h k (Memᴰ.head refl) in absurd (ground arith)
      | inr other ↦ rest ∙ lookup-shut_down k j w ∙ rw other refl
    ]

-- Reflectors of another kind stay.
pub other_kinds :
    (kind j : Text) (ns : Option Text) (w : World)
    → (j == kind) ≡ false
    → lookup (j, ns) (shutdown_namespaced_reflectors kind w).reflectors
      ≡ lookup (j, ns) w.reflectors
unfolding shutdown_namespaced_reflectors
other_kinds kind j ns w other =
    each_kept (is_namespaced kind) (keep (is_namespaced kind) (keys w.reflectors)) (j, ns) w
      (λ k m. ((Memᴰ-keep (is_namespaced kind) k (keys w.reflectors)).0 m).1) (ground arith)
