-- ===== src/Logs/Resolved.antt =====
-- cmd/log_session.rs: the containers that `resolve_log_targets` finds.
use mathlib.Core.List.Memᴰ
use mathlib.Core.Path.{subst}
use kubectl_nvim.Prelude.{
  ◌<◌, ◌≡◌, ◌↔◌, ◌⊎◌, inl, inr, refl, sym, ap, ◌∙◌, Text, Option, none, some, List, [], ◌∷◌, ◌++◌,
  map, length, Memᴰ, Memᴰ-append, Bool, true, ltb, arith, ◌≢◌, Memᴰ-map,
}
use kubectl_nvim.Logs.Targets.{
  PodRef, PodSpec, ResolvedContainer, ResolvedTargets, Result, ok, err, get_container_names,
  resolved, resolve_pods, targets, resolve_log_targets,
}

Result-cases : {A : Type 0} (r : Result A) → ((a : A) × (r ≡ ok a)) ⊎ ((e : Text) × (r ≡ err e))
Result-cases (ok a) = inl (a, refl)
Result-cases (err e) = inr (e, refl)

module _ (get : PodRef → Result (Option PodSpec)) (target : Option Text) where
  -- A container that is to be found: it is listed by a pod that can be read, and not filtered out.
  abbrev pub Resolves : List PodRef → ResolvedContainer → Type 0
  Resolves pods c =
      (pod : PodRef) × (spec : PodSpec) × (name : Text) × Memᴰ pod pods
      × (get pod ≡ ok (some spec))
      × Memᴰ name (get_container_names spec target)
      × (c ≡ resolved pod name)

  abbrev Found : List PodRef → List ResolvedContainer → Type 0
  Found pods cs = (c : ResolvedContainer) → Memᴰ c cs ↔ Resolves pods c

  later :
      (pod : PodRef) (pods : List PodRef) (c : ResolvedContainer)
      → Resolves pods c
      → Resolves (pod ∷ pods) c
  later pod pods c (q, spec, name, at, read, listed, same) =
      (q, spec, name, Memᴰ.tail at, read, listed, same)

  -- A pod that gives no container changes nothing.
  Found-skip :
      (pod : PodRef) (pods : List PodRef) (cs : List ResolvedContainer)
      → ((spec : PodSpec) → get pod ≢ ok (some spec))
      → Found pods cs
      → Found (pod ∷ pods) cs
  Found-skip pod pods cs unread f c = (
    λ m. later pod pods c ((f c).0 m),
    λ (q, spec, name, at, read, listed, same). elim (Memᴰ.cases_cons at) [
      | inl here ↦ absurd (unread spec (ap get (sym here) ∙ read))
      | inr beyond ↦ (f c).1 (q, spec, name, beyond, read, listed, same)
    ],
  )

  Found-spec :
      (pod : PodRef) (pods : List PodRef) (spec : PodSpec) (cs : List ResolvedContainer)
      → get pod ≡ ok (some spec)
      → Found pods cs
      → Found (pod ∷ pods) (map (resolved pod) (get_container_names spec target) ++ cs)
  Found-spec pod pods spec cs read f c =
      let mine = map (resolved pod) (get_container_names spec target) in
      let mapped = Memᴰ-map (resolved pod) (get_container_names spec target) c in
      (
        λ m. elim ((Memᴰ-append c mine cs).0 m) [
          | inl n ↦
              let (name, listed, same) = mapped.0 n in
              (pod, spec, name, Memᴰ.head refl, read, listed, same)
          | inr n ↦ later pod pods c ((f c).0 n)
        ],
        λ (q, sp, name, at, read_q, listed, same). elim (Memᴰ.cases_cons at) [
          | inl here ↦
              let specs : sp ≡ spec = cc (ap get here, read_q, read) in
              Memᴰ.append_left cs (
                mapped.1 (
                  name,
                  subst (λ s. Memᴰ name (get_container_names s target)) specs listed,
                  same ∙ ap (λ p. resolved p name) here,
                ))
          | inr beyond ↦
              Memᴰ.append_right mine ((f c).1 (q, sp, name, beyond, read_q, listed, same))
        ],
      )

  resolve_pods_total :
      (pods : List PodRef)
      → (cs : List ResolvedContainer) × (resolve_pods get true target pods ≡ ok cs) × Found pods cs
  unfolding resolve_pods
  resolve_pods_total [] = (
    [],
    refl,
    λ c. (λ m. absurd (Memᴰ.not-nil m), λ (_, _, _, m, _, _, _). absurd (Memᴰ.not-nil m)),
  )
  resolve_pods_total (pod ∷ pods) =
      let (cs, e, f) = resolve_pods_total pods in
      elim (Result-cases (get pod)) [
        | inl (some spec, read) ↦ (
          map (resolved pod) (get_container_names spec target) ++ cs,
          rw (read, e) refl,
          Found-spec pod pods spec cs read f,
        )
        | inl (none, read) ↦ (cs, rw (read, e) refl, Found-skip pod pods cs (λ s h. cc (h, read)) f)
        | inr (msg, read) ↦ (cs, rw (read, e) refl, Found-skip pod pods cs (λ s h. cc (h, read)) f)
      ]

  -- With several pods the search does not fail, whichever of them cannot be read, and it finds the
  -- containers of those that can, and no others.
  pub resolve_log_targets_total :
      (pods : List PodRef) (prefix_override : Option Bool)
      → 1 < length pods
      → (ts : ResolvedTargets) × (resolve_log_targets get pods target prefix_override ≡ ok ts)
        × ((c : ResolvedContainer) → Memᴰ c ts.containers ↔ Resolves pods c)
  unfolding resolve_log_targets
  resolve_log_targets_total [] o h = absurd (omega arith)
  resolve_log_targets_total (pod ∷ pods) o h =
      let (cs, e, f) = resolve_pods_total (pod ∷ pods) in
      let several : ltb 1 (length (pod ∷ pods)) ≡ true = ground arith in
      (
        _,
        ap (λ b. targets get b o (resolve_pods get b target (pod ∷ pods))) several
            ∙ ap (targets get true o) e,
        f,
      )
