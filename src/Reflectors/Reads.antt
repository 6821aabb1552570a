-- ===== src/Reflectors/Reads.antt =====
-- store.rs: what `get` and `get_single` read once a kind was initialised.
use kubectl_nvim.Prelude.{
  ℕ, ◌≡◌, refl, sym, ap, ◌∙◌, inl, inr, Text, text_eq, option_eq, pair_eq, ◌==◌, Bool, ◌&&◌,
  Bool-cases, Option-cases, true, false, Option, none, some, List, [], ◌∷◌, Memᴰ, keep, find,
  lookup, contains_key, lookup-insert, ==_refl, arith, text_beq_iff, pair_beq_iff,
}
use kubectl_nvim.Reflectors.Store.{
  ReflectorKey, ReflectorData, StoreMap, World, DynamicObject, no_reflectors, create_reflector,
  redundant, shutdown_namespaced_reflectors, is_covered, init_free, init_reflector_for_kind,
  matches_namespace, ok, found_data, get, get_single,
}
use kubectl_nvim.Reflectors.Removal.{other_kinds}
use kubectl_nvim.Reflectors.Exclusive.{
  Call, after_all, IsKept, besides, init-IsKept, after_all-IsKept, no_reflectors-IsKept,
}

-- The calls that follow, one for each kind and namespace.
abbrev pub init_each : List ReflectorKey → World → World
init_each [] w = w
init_each ((kind, namespace) ∷ ks) w = init_each ks (init_reflector_for_kind kind namespace w)

abbrev pub named : Text → DynamicObject → Bool
named name obj = obj.name_any == name

find-keep :
    {A : Type 0} (p q : A → Bool) (xs : List A) → find (λ x. p x && q x) xs ≡ find p (keep q xs)
find-keep p q [] = refl
find-keep p q (x ∷ xs) = ground (arith, find-keep p q xs)

-- A key is served: by a reflector of its own, or by the one for all namespaces.
abbrev Served : Text → Option Text → World → Type 0
Served kind namespace w = (d : ReflectorData) × (found_data kind namespace w.reflectors ≡ some d)

Served-all :
    (kind : Text) (namespace : Option Text) (w : World) (d : ReflectorData)
    → lookup (kind, none) w.reflectors ≡ some d
    → Served kind namespace w
Served-all kind namespace w d at = (d, rw at refl)

Served-own :
    (kind : Text) (namespace : Option Text) (w : World) (d : ReflectorData)
    → lookup (kind, namespace) w.reflectors ≡ some d
    → Served kind namespace w
Served-own kind namespace w d at = elim (Option-cases (lookup (kind, none) w.reflectors)) [
  | inl free ↦ (d, rw (free, at) refl)
  | inr (e, all) ↦ (e, rw all refl)
]

-- A key is served still if the keys of its kind have a reflector still.
carried :
    (kind : Text) (namespace : Option Text) (w v : World)
    → ((ns : Option Text) (d : ReflectorData)
        → lookup (kind, ns) w.reflectors ≡ some d
        → (e : ReflectorData) × (lookup (kind, ns) v.reflectors ≡ some e))
    → Served kind namespace w
    → Served kind namespace v
carried kind namespace w v each (d, found) =
    elim (Option-cases (lookup (kind, none) w.reflectors)) [
      | inl free ↦
          let (e, at) = each namespace d (rw free at found) in Served-own kind namespace v e at
      | inr (a, all) ↦ let (e, at) = each none a all in Served-all kind namespace v e at
    ]

created :
    (k : ReflectorKey) (w : World)
    → (d : ReflectorData) × (lookup k (create_reflector k w).reflectors ≡ some d)
unfolding create_reflector
created k w =
    let d : ReflectorData = record { store = w.started; task = w.started } in
    (d, lookup-insert k k d w.reflectors ∙ rw (==_refl k) refl)

grown :
    (k j : ReflectorKey) (w : World) (d : ReflectorData)
    → lookup j w.reflectors ≡ some d
    → (e : ReflectorData) × (lookup j (create_reflector k w).reflectors ≡ some e)
grown k j w d at = elim (Bool-cases (k == j)) [
  | inl same ↦
      let (e, new) = created k w in
      (
        e,
        ap (λ i. lookup i (create_reflector k w).reflectors) (sym ((pair_beq_iff k j).0 same))
            ∙ new,
      )
  | inr other ↦ (d, besides w k j other ∙ at)
]

contained :
    (k : ReflectorKey) (m : StoreMap)
    → contains_key k m ≡ true
    → (d : ReflectorData) × (lookup k m ≡ some d)
unfolding contains_key
contained k m h = elim (Option-cases (lookup k m)) [
  | inl free ↦ absurd (ground (arith, rw free at h))
  | inr found ↦ found
]

covered-Served :
    (kind : Text) (namespace : Option Text) (w : World)
    → is_covered kind namespace w.reflectors ≡ true
    → Served kind namespace w
covered-Served kind namespace w h = elim (Bool-cases (contains_key (kind, none) w.reflectors)) [
  | inl all ↦
      let (d, at) = contained (kind, none) w.reflectors all in Served-all kind namespace w d at
  | inr bare ↦
      let (d, at) = contained (kind, namespace) w.reflectors (ground arith) in
      Served-own kind namespace w d at
]

init-Served :
    (kind : Text) (namespace : Option Text) (w : World)
    → w.poisoned ≡ false
    → Served kind namespace (init_reflector_for_kind kind namespace w)
unfolding init_reflector_for_kind
init-Served kind namespace w sound = elim (Bool-cases (is_covered kind namespace w.reflectors)) [
  | inl covered ↦ simp (sound, covered) (covered-Served kind namespace w covered)
  | inr bare ↦
      let v = redundant kind namespace w in
      let (d, at) = created (kind, namespace) v in
      simp (sound, bare) (Served-own kind namespace (create_reflector (kind, namespace) v) d at)
]

-- A new reflector for all namespaces of kind `j` serves what was served.
all-Served :
    (kind j : Text) (namespace : Option Text) (w : World)
    → Served kind namespace w
    → Served kind namespace (create_reflector (j, none) (shutdown_namespaced_reflectors j w))
all-Served kind j namespace w h =
    let v = shutdown_namespaced_reflectors j w in
    elim (Bool-cases (kind == j)) [
      | inl same ↦
          let (d, at) = created (j, none) v in
          let named_j = (text_beq_iff kind j).0 same in
          Served-all kind namespace (create_reflector (j, none) v) d
            (ap (λ x. lookup (x, none) (create_reflector (j, none) v).reflectors) named_j ∙ at)
      | inr other ↦
          carried kind namespace w (create_reflector (j, none) v)
            (λ ns d at. grown (j, none) (kind, ns) v d (other_kinds j kind ns w other ∙ at)) h
    ]

Served-by :
    (kind : Text) (namespace : Option Text) (j : Text) (ns : Option Text) (w : World)
    → Served kind namespace w
    → Served kind namespace (init_free j ns w false)
Served-by kind namespace j none w h = all-Served kind j namespace w h
Served-by kind namespace j (some ns) w h =
    carried kind namespace w (create_reflector (j, some ns) w)
      (λ one d at. grown (j, some ns) (kind, one) w d at) h

-- Another call keeps it served.
still-Served :
    (kind : Text) (namespace : Option Text) (j : Text) (ns : Option Text) (w : World)
    → w.poisoned ≡ false
    → Served kind namespace w
    → Served kind namespace (init_reflector_for_kind j ns w)
unfolding init_reflector_for_kind
still-Served kind namespace j ns w sound h = elim (Bool-cases (is_covered j ns w.reflectors)) [
  | inl covered ↦ simp (sound, covered) h
  | inr bare ↦ simp (sound, bare) (Served-by kind namespace j ns w h)
]

still_each :
    (kind : Text) (namespace : Option Text) (ks : List ReflectorKey) (w : World)
    → IsKept w
    → Served kind namespace w
    → IsKept (init_each ks w) × Served kind namespace (init_each ks w)
still_each kind namespace [] w v h = (v, h)
still_each kind namespace ((j, ns) ∷ ks) w v h =
    still_each kind namespace ks (init_reflector_for_kind j ns w) (init-IsKept j ns w v)
      (still-Served kind namespace j ns w v.sound h)

-- The task of the reflector that serves a key runs.
live_found :
    (kind : Text) (namespace : Option Text) (w : World) (d : ReflectorData)
    → IsKept w
    → found_data kind namespace w.reflectors ≡ some d
    → Memᴰ d.task w.cancelled
    → ⊥
live_found kind namespace w d v found = elim (Option-cases (lookup (kind, none) w.reflectors)) [
  | inl free ↦ v.accounted.live (kind, namespace) d (rw free at found)
  | inr (a, all) ↦ v.accounted.live (kind, none) d (all ∙ rw all at found)
]

-- What a read of a served key gives.
reads :
    (state : ℕ → List DynamicObject) (kind : Text) (namespace : Option Text) (name : Text)
    (w : World) (d : ReflectorData)
    → w.poisoned ≡ false
    → found_data kind namespace w.reflectors ≡ some d
    → (get state kind namespace w ≡ ok (keep (matches_namespace namespace) (state d.store)))
      × (get_single state kind namespace name w
          ≡ ok (find (named name) (keep (matches_namespace namespace) (state d.store))))
unfolding get get_single
reads state kind namespace name w d sound found = (
  simp (sound, found) refl,
  simp (sound, found)
      (ap ok (find-keep (named name) (matches_namespace namespace) (state d.store))),
)

-- The state after any calls from no reflectors, then the initialisation of a key, and then those of
-- other keys.
abbrev pub initialised : List Call → Text → Option Text → List ReflectorKey → World
initialised before kind namespace later =
    init_each later (init_reflector_for_kind kind namespace (after_all before no_reflectors))

-- After any calls from no reflectors, once a kind and namespace were initialised, and whatever is
-- initialised later: a reflector whose task was not cancelled serves it. `get` lists the objects in
-- its store that match the namespace, and `get_single` finds the first of those with the name.
pub init_reads :
    (state : ℕ → List DynamicObject) (before : List Call) (kind : Text) (namespace : Option Text)
    (later : List ReflectorKey) (name : Text)
    → (d : ReflectorData) × (found_data kind namespace
          (initialised before kind namespace later).reflectors
        ≡ some d)
      × (Memᴰ d.task (initialised before kind namespace later).cancelled → ⊥)
      × (get state kind namespace (initialised before kind namespace later)
          ≡ ok (keep (matches_namespace namespace) (state d.store)))
      × (get_single state kind namespace name (initialised before kind namespace later)
          ≡ ok (find (named name) (keep (matches_namespace namespace) (state d.store))))
init_reads state before kind namespace later name =
    let start = after_all before no_reflectors in
    let kept = after_all-IsKept before no_reflectors no_reflectors-IsKept in
    let v = initialised before kind namespace later in
    let (last, served) =
      still_each kind namespace later (init_reflector_for_kind kind namespace start)
        (init-IsKept kind namespace start kept) (init-Served kind namespace start kept.sound) in
    let (d, found) = served in
    let (listed, single) = reads state kind namespace name v d last.sound found in
    (d, found, live_found kind namespace v d last found, listed, single)
