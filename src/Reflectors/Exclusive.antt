-- ===== src/Reflectors/Exclusive.antt =====
-- store.rs: what holds of the map and of the tasks after any sequence of calls.
use kubectl_nvim.Prelude.{
  ℕ, ◌<◌, ◌≡◌, ◌↔◌, refl, sym, ap, ◌∙◌, inl, inr, Text, text_eq, text_beq_iff, option_eq, pair_eq,
  ◌==◌, Bool-cases, Option-cases, false, Option, none, some, List, [], ◌∷◌, Memᴰ, lookup,
  lookup-insert, contains_key, keep, arith,
}
use kubectl_nvim.Reflectors.Store.{
  ReflectorKey, ReflectorData, StoreMap, World, no_reflectors, shut_down, shut_down_each, keys,
  is_namespaced, create_reflector, shutdown_all_reflectors, shutdown_namespaced_reflectors,
  is_covered, init_free, init_reflector_for_kind,
}
use kubectl_nvim.Reflectors.Removal.{lookup_before, namespaced_free}
use kubectl_nvim.Reflectors.Accounts.{
  Accounted, Held, no_reflectors-Accounted, each-Accounted, create_reflector-Accounted,
}

-- A kind with a reflector for all namespaces has none for a single one.
abbrev pub Exclusive : World → Type 0
Exclusive w =
    (kind ns : Text) (d : ReflectorData)
    → lookup (kind, none) w.reflectors ≡ some d
    → lookup (kind, some ns) w.reflectors ≡ none

pub record IsKept (w : World) : Type 0 where
  pub sound : w.poisoned ≡ false
  pub accounted : Accounted w
  pub exclusive : Exclusive w

each_sound : (ks : List ReflectorKey) (w : World) → (shut_down_each ks w).poisoned ≡ w.poisoned
unfolding shut_down
each_sound [] w = refl
each_sound (k ∷ ks) w =
    each_sound ks (shut_down k w) ∙ elim (Option-cases (lookup k w.reflectors)) [
      | inl free ↦ rw free refl
      | inr (d, at) ↦ rw at refl
    ]

-- What is free stays free.
free_after :
    (ks : List ReflectorKey) (j : ReflectorKey) (w : World)
    → lookup j w.reflectors ≡ none
    → lookup j (shut_down_each ks w).reflectors ≡ none
free_after ks j w free = elim (Option-cases (lookup j (shut_down_each ks w).reflectors)) [
  | inl still ↦ still
  | inr (d, at) ↦ absurd (cc (free, lookup_before ks j w d at))
]

pub each-IsKept : (ks : List ReflectorKey) (w : World) → IsKept w → IsKept (shut_down_each ks w)
each-IsKept ks w v = record {
  sound = each_sound ks w ∙ v.sound;
  accounted = each-Accounted ks w v.accounted;
  exclusive = λ kind ns d h.
      free_after ks (kind, some ns) w (v.exclusive kind ns d (lookup_before ks (kind, none) w d h));
}

module _ (w : World) (k : ReflectorKey) where
  -- A new reflector leaves the other keys as they are.
  pub besides :
      (j : ReflectorKey)
      → (k == j) ≡ false
      → lookup j (create_reflector k w).reflectors ≡ lookup j w.reflectors
  unfolding create_reflector
  besides j other =
      let new : ReflectorData = record { store = w.started; task = w.started } in
      lookup-insert k j new w.reflectors ∙ rw other refl

-- A new reflector for all namespaces, where there is none of the kind.
create_all :
    (kind : Text) (w : World)
    → Exclusive w
    → ((ns : Text) → lookup (kind, some ns) w.reflectors ≡ none)
    → Exclusive (create_reflector (kind, none) w)
create_all kind w v single j ns d h =
    let one = besides w (kind, none) (j, some ns) (ground arith) in
    elim (Bool-cases (kind == j)) [
      | inl same ↦
          let named = sym ((text_beq_iff kind j).0 same) in
          one ∙ ap (λ x. lookup (x, some ns) w.reflectors) named ∙ single ns
      | inr other ↦ one ∙ v j ns d (sym (besides w (kind, none) (j, none) (ground arith)) ∙ h)
    ]

-- A new reflector for one namespace, where there is none for all.
create_one :
    (kind only : Text) (w : World)
    → Exclusive w
    → lookup (kind, none) w.reflectors ≡ none
    → Exclusive (create_reflector (kind, some only) w)
create_one kind only w v free j ns d h =
    let k : ReflectorKey = (kind, some only) in
    let at = sym (besides w k (j, none) (ground arith)) ∙ h in
    elim (Bool-cases (kind == j)) [
      | inl same ↦
          let named = ap (λ x. lookup (x, none) w.reflectors) ((text_beq_iff kind j).0 same) in
          absurd (cc (free, at, named))
      | inr other ↦ besides w k (j, some ns) (ground arith) ∙ v j ns d at
    ]

create_sound : (k : ReflectorKey) (w : World) → (create_reflector k w).poisoned ≡ w.poisoned
unfolding create_reflector
create_sound k w = refl

free_of_contains : (k : ReflectorKey) (m : StoreMap) → contains_key k m ≡ false → lookup k m ≡ none
unfolding contains_key
free_of_contains k m h = elim (Option-cases (lookup k m)) [
  | inl free ↦ free
  | inr (d, at) ↦ absurd (ground (arith, rw at at h))
]

-- What `init_reflector_for_kind` does to a kept state whose map does not serve the key.
init_free-IsKept :
    (kind : Text) (namespace : Option Text) (w : World)
    → IsKept w
    → lookup (kind, none) w.reflectors ≡ none
    → lookup (kind, namespace) w.reflectors ≡ none
    → IsKept (init_free kind namespace w false)
unfolding shutdown_namespaced_reflectors
init_free-IsKept kind none w v free _ =
    let ks = keep (is_namespaced kind) (keys w.reflectors) in
    let shut = shut_down_each ks w in
    let r = each-IsKept ks w v in
    let none_left = free_after ks (kind, none) w free in
    record {
      sound = create_sound (kind, none) shut ∙ r.sound;
      accounted = create_reflector-Accounted shut r.accounted (kind, none) none_left;
      exclusive = create_all kind shut r.exclusive (λ ns. namespaced_free kind ns w);
    }
init_free-IsKept kind (some ns) w v free taken = record {
  sound = create_sound (kind, some ns) w ∙ v.sound;
  accounted = create_reflector-Accounted w v.accounted (kind, some ns) taken;
  exclusive = create_one kind ns w v.exclusive free;
}

pub init-IsKept :
    (kind : Text) (namespace : Option Text) (w : World)
    → IsKept w
    → IsKept (init_reflector_for_kind kind namespace w)
unfolding init_reflector_for_kind
init-IsKept kind namespace w v =
    let m = w.reflectors in
    elim (Bool-cases (is_covered kind namespace m)) [
      | inl covered ↦ simp (v.sound, covered) v
      | inr bare ↦
          simp (v.sound, bare)
            (init_free-IsKept kind namespace w v (free_of_contains (kind, none) m (ground arith))
              (free_of_contains (kind, namespace) m (ground arith)))
    ]

pub data Call : Type 0 where
  init : Text → Option Text → Call
  shutdown : Call

abbrev pub after : Call → World → World
after (init kind namespace) w = init_reflector_for_kind kind namespace w
after shutdown w = shutdown_all_reflectors w

abbrev pub after_all : List Call → World → World
after_all [] w = w
after_all (c ∷ cs) w = after_all cs (after c w)

after-IsKept : (c : Call) (w : World) → IsKept w → IsKept (after c w)
unfolding shutdown_all_reflectors
after-IsKept (init kind namespace) w v = init-IsKept kind namespace w v
after-IsKept shutdown w v = simp v.sound (each-IsKept (keys w.reflectors) w v)

pub after_all-IsKept : (cs : List Call) (w : World) → IsKept w → IsKept (after_all cs w)
after_all-IsKept [] w v = v
after_all-IsKept (c ∷ cs) w v = after_all-IsKept cs (after c w) (after-IsKept c w v)

pub no_reflectors-IsKept : IsKept no_reflectors
unfolding lookup
no_reflectors-IsKept = record {
  sound = refl;
  accounted = no_reflectors-Accounted;
  exclusive = λ kind ns d h. refl;
}

-- After any sequence of calls, each to its end, starting from no reflectors: a kind with a reflector
-- for all namespaces has none for a single one.
pub reflectors_exclusive :
    (cs : List Call) (kind ns : Text) (d : ReflectorData)
    → lookup (kind, none) (after_all cs no_reflectors).reflectors ≡ some d
    → lookup (kind, some ns) (after_all cs no_reflectors).reflectors ≡ none
reflectors_exclusive cs = (after_all-IsKept cs no_reflectors no_reflectors-IsKept).exclusive

-- After any sequence of calls, each to its end, starting from no reflectors: a task that was started
-- has not been cancelled just if the map holds it, and the tasks that were aborted are those that
-- were cancelled.
pub uncancelled-Held :
    (cs : List Call) (n : ℕ)
    → n < (after_all cs no_reflectors).started
    → ((Memᴰ n (after_all cs no_reflectors).cancelled → ⊥)
        ↔ Held (after_all cs no_reflectors).reflectors n)
      × ((after_all cs no_reflectors).aborted ≡ (after_all cs no_reflectors).cancelled)
uncancelled-Held cs n h =
    let a = (after_all-IsKept cs no_reflectors no_reflectors-IsKept).accounted in
    (
      (
        λ live. elim (a.kept n h) [ inl gone ↦ absurd (live gone) | inr held ↦ held ],
        λ (k, d, at, task) m. a.live k d at (rw task m),
      ),
      a.together,
    )
