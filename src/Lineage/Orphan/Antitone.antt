-- ===== src/Lineage/Orphan/Antitone.antt =====
-- More incoming edges never turn a used resource into an orphan.
use mathlib.Core.Bool.{false≢true}
use kubectl_nvim.Prelude.{
  ◌≡◌, refl, Bool, true, not, List, Memᴰ, Text, any, any_iff, any_of_Memᴰ, Bool-cases, inl, inr,
  arith,
}
use kubectl_nvim.Lineage.Resource.{EdgeType}
use kubectl_nvim.Lineage.Orphan.Condition.{
  OrphanCondition, no_incoming_refs, no_incoming_from, has_missing_ref, no_owner,
  is_service_account_token, and_all, or_any, Conditions, nil, cons, OrphanContext, evaluate,
  evaluate_all, evaluate_any, refers_from,
}

-- The same resource, seen with at least the edges of `few`.
abbrev pub Extends : OrphanContext → List (EdgeType × Text) → Type 0
Extends many few = (x : EdgeType × Text) → Memᴰ x few → Memᴰ x many.incoming_refs

abbrev pub with_refs : OrphanContext → List (EdgeType × Text) → OrphanContext
with_refs ctx few = record ctx { incoming_refs = few }

not-any_antitone {ℓ} :
    {A : Type ℓ} (p : A → Bool) (few many : List A)
    → ((x : A) → Memᴰ x few → Memᴰ x many)
    → not (any p many) ≡ true
    → not (any p few) ≡ true
not-any_antitone p few many sub h = elim (Bool-cases (any p few)) [
  | inl used ↦
      let (x, m, e) = any_iff p few used in
      absurd (false≢true (rw (any_of_Memᴰ p x many (sub x m) e) at h))
  | inr unused ↦ rw unused
]

module _ (ctx : OrphanContext) (few : List (EdgeType × Text)) (sub : Extends ctx few) where
  mutual
    unfolding evaluate

    evaluate_mono :
        (c : OrphanCondition) → evaluate c ctx ≡ true → evaluate c (with_refs ctx few) ≡ true
    evaluate_mono no_incoming_refs h = not-any_antitone _ few ctx.incoming_refs sub h
    evaluate_mono (no_incoming_from kinds) h =
        not-any_antitone (refers_from kinds) few ctx.incoming_refs sub h
    evaluate_mono (has_missing_ref kind) h = h
    evaluate_mono no_owner h = not-any_antitone _ few ctx.incoming_refs sub h
    evaluate_mono is_service_account_token h = h
    evaluate_mono (and_all cs) h = evaluate_all_mono cs h
    evaluate_mono (or_any cs) h = evaluate_any_mono cs h

    evaluate_all_mono :
        (cs : Conditions) → evaluate_all cs ctx ≡ true → evaluate_all cs (with_refs ctx few) ≡ true
    evaluate_all_mono nil h = refl
    evaluate_all_mono (cons c cs) h = ground (arith, evaluate_mono c, evaluate_all_mono cs)

    evaluate_any_mono :
        (cs : Conditions) → evaluate_any cs ctx ≡ true → evaluate_any cs (with_refs ctx few) ≡ true
    evaluate_any_mono nil h = h
    evaluate_any_mono (cons c cs) h = ground (arith, evaluate_mono c, evaluate_any_mono cs)

-- Every condition that holds with more incoming edges holds with fewer.
pub evaluate_antitone :
    (ctx : OrphanContext) (few : List (EdgeType × Text)) (c : OrphanCondition)
    → Extends ctx few
    → evaluate c ctx ≡ true
    → evaluate c (with_refs ctx few) ≡ true
evaluate_antitone ctx few c sub = evaluate_mono ctx few sub c
