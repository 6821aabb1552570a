-- ===== src/Processors/Cache.antt =====
-- processors/processor.rs: the cache of deserialized resources, by the address and the version of the
-- object. Resources of all types stand in one type, each with the tag of its own; `none` is an error.
use kubectl_nvim.Prelude.{
  ℕ, ◌≡◌, refl, sym, ap, ◌∙◌, inl, inr, Text, text_eq, text_beq_iff, nat_eq_iff, ℕ_eq, ◌==◌, Bool,
  Bool-cases, Option-cases, true, false, Option, none, some, unwrap_or, List, [], ◌∷◌, Memᴰ,
  HashMap, lookup, insert, lookup-insert, arith, if◌then◌else◌,
}
use mathlib.Core.Path.{subst}
use kubectl_nvim.Lineage.Tree.Link.{◌>>=◌, >>=-eq-some}
use kubectl_nvim.Processors.Items.{Values, DynamicObject}

none≢some : {A : Type 0} {a : A} → none ≡ some a → ⊥
none≢some h = ground arith

some-inj : {A : Type 0} {a b : A} → some a ≡ some b → a ≡ b
some-inj h = cc h

module _ (J : Values) (R : Type 0) (decode : ℕ → DynamicObject J → Option R) where
  pub record CacheEntry : Type 0 where
    pub version : Text
    pub tag : ℕ
    pub resource : R

  pub record Cache : Type 0 where
    pub entries : HashMap ℕ CacheEntry
    pub poisoned : Bool

  abbrev pub empty_cache : Cache
  empty_cache = record { entries = []; poisoned = false }

  abbrev pub version_of : DynamicObject J → Text
  version_of obj = unwrap_or [] obj.metadata.resource_version

  -- The entry if it is of this version and of the type wanted.
  abbrev pub fitting : ℕ → Text → CacheEntry → Option R
  fitting tag rv e =
      let cast = if e.tag == tag then some e.resource else none in
      if e.version == rv then cast else none

  unfoldable pub hit : ℕ → ℕ → DynamicObject J → Cache → Option R
  hit tag ptr obj c =
      if c.poisoned then none else lookup ptr c.entries >>= fitting tag (version_of obj)

  abbrev pub keep_entry : ℕ → ℕ → DynamicObject J → Cache → R → Cache
  keep_entry tag ptr obj c r = if c.poisoned then c else record c {
    entries = insert ptr (record { version = version_of obj; tag = tag; resource = r }) c.entries;
  }

  abbrev pub decoded : ℕ → ℕ → DynamicObject J → Cache → Option R → Option R × Cache
  decoded tag ptr obj c none = (none, c)
  decoded tag ptr obj c (some r) = (some r, keep_entry tag ptr obj c r)

  abbrev pub on_hit : ℕ → ℕ → DynamicObject J → Cache → Option R → Option R × Cache
  on_hit tag ptr obj c none = decoded tag ptr obj c (decode tag obj)
  on_hit tag ptr obj c (some r) = (some r, c)

  unfoldable pub deserialize_cached : ℕ → ℕ → DynamicObject J → Cache → Option R × Cache
  deserialize_cached tag ptr obj c = on_hit tag ptr obj c (hit tag ptr obj c)

  unfoldable pub clear_resource_cache : Cache → Cache
  clear_resource_cache c = if c.poisoned then c else record c { entries = [] }

  -- Calls, and what they answer.
  pub data CacheCall : Type 0 where
    deserialize : ℕ → ℕ → DynamicObject J → CacheCall
    clear : CacheCall

  abbrev pub cached_answers : List CacheCall → Cache → List (Option R)
  cached_answers [] c = []
  cached_answers (deserialize tag ptr obj ∷ calls) c =
      let (answer, d) = deserialize_cached tag ptr obj c in answer ∷ cached_answers calls d
  cached_answers (clear ∷ calls) c = cached_answers calls (clear_resource_cache c)

  abbrev pub fresh_answers : List CacheCall → List (Option R)
  fresh_answers [] = []
  fresh_answers (deserialize tag ptr obj ∷ calls) = decode tag obj ∷ fresh_answers calls
  fresh_answers (clear ∷ calls) = fresh_answers calls

  module _ (object_at : ℕ → Text → DynamicObject J) where
    -- The object is the one of its version at the address.
    abbrev pub IsAt : CacheCall → Type 0
    IsAt (deserialize tag ptr obj) = object_at ptr (version_of obj) ≡ obj
    IsAt clear = true ≡ true

    abbrev Coherent : Cache → Type 0
    Coherent c =
        (ptr : ℕ) (e : CacheEntry)
        → lookup ptr c.entries ≡ some e
        → decode e.tag (object_at ptr e.version) ≡ some e.resource

    fitting_same :
        (tag : ℕ) (rv : Text) (e : CacheEntry) (r : R)
        → fitting tag rv e ≡ some r
        → (e.tag ≡ tag) × (e.version ≡ rv) × (e.resource ≡ r)
    fitting_same tag rv e r h = elim (Bool-cases (e.version == rv)) [
      | inl same ↦ elim (Bool-cases (e.tag == tag)) [
        | inl typed ↦ (
          (nat_eq_iff e.tag tag).0 typed,
          (text_beq_iff e.version rv).0 same,
          some-inj (rw (same, typed) at h),
        )
        | inr other ↦ absurd (none≢some (rw (same, other) at h))
      ]
      | inr other ↦ absurd (none≢some (rw other at h))
    ]

    hit_fresh :
        (tag ptr : ℕ) (obj : DynamicObject J) (c : Cache) (r : R)
        → Coherent c
        → object_at ptr (version_of obj) ≡ obj
        → hit tag ptr obj c ≡ some r
        → decode tag obj ≡ some r
    unfolding hit
    hit_fresh tag ptr obj c r v at h = elim (Bool-cases c.poisoned) [
      | inl bad ↦ absurd (none≢some (simp bad at h))
      | inr sound ↦
          let (e, found, fits) =
            >>=-eq-some (lookup ptr c.entries) (fitting tag (version_of obj)) (simp sound at h) in
          let (typed, versioned, same) = fitting_same tag (version_of obj) e r fits in
          let was = v ptr e found in
          ap (λ o. decode tag o) (sym at)
          ∙ ap (λ x. decode tag (object_at ptr x)) (sym versioned)
          ∙ ap (λ x. decode x (object_at ptr e.version)) (sym typed)
          ∙ was
          ∙ ap some same
    ]

    keep_entry-Coherent :
        (tag ptr : ℕ) (obj : DynamicObject J) (c : Cache) (r : R)
        → Coherent c
        → object_at ptr (version_of obj) ≡ obj
        → decode tag obj ≡ some r
        → Coherent (keep_entry tag ptr obj c r)
    keep_entry-Coherent tag ptr obj c r v at h p e found = elim (Bool-cases c.poisoned) [
      | inl bad ↦ v p e (simp bad at found)
      | inr sound ↦
          let new : CacheEntry = record { version = version_of obj; tag = tag; resource = r } in
          let there = sym (lookup-insert ptr p new c.entries) ∙ simp sound at found in
          elim (Bool-cases (ptr == p)) [
            | inl same ↦
                let entry : new ≡ e = some-inj (rw same at there) in
                subst (λ (x : CacheEntry). decode x.tag (object_at p x.version) ≡ some x.resource)
                  entry
                  (ap (λ q. decode tag (object_at q (version_of obj)))
                      (sym ((nat_eq_iff ptr p).0 same))
                    ∙ ap (decode tag) at
                    ∙ h)
            | inr other ↦ v p e (rw other at there)
          ]
    ]

    clear-Coherent : (c : Cache) → Coherent c → Coherent (clear_resource_cache c)
    unfolding clear_resource_cache lookup
    clear-Coherent c v p e found = elim (Bool-cases c.poisoned) [
      | inl bad ↦ v p e (simp bad at found)
      | inr sound ↦ absurd (none≢some (simp sound at found))
    ]

    -- One call answers as without a cache, and keeps the cache coherent.
    deserialize_fresh :
        (tag ptr : ℕ) (obj : DynamicObject J) (c : Cache)
        → Coherent c
        → object_at ptr (version_of obj) ≡ obj
        → ((deserialize_cached tag ptr obj c).0 ≡ decode tag obj)
          × Coherent (deserialize_cached tag ptr obj c).1
    unfolding deserialize_cached
    deserialize_fresh tag ptr obj c v at = elim (Option-cases (hit tag ptr obj c)) [
      | inl miss ↦ elim (Option-cases (decode tag obj)) [
        | inl bad ↦ rw (miss, bad) (refl, v)
        | inr (r, good) ↦ rw (miss, good) (refl, keep_entry-Coherent tag ptr obj c r v at good)
      ]
      | inr (r, found) ↦ rw found (sym (hit_fresh tag ptr obj c r v at found), v)
    ]

    fresh_from :
        (calls : List CacheCall) (c : Cache)
        → Coherent c
        → ((call : CacheCall) → Memᴰ call calls → IsAt call)
        → cached_answers calls c ≡ fresh_answers calls
    fresh_from [] c v at = refl
    fresh_from (deserialize tag ptr obj ∷ calls) c v at =
        let (same, next) =
          deserialize_fresh tag ptr obj c v (at (deserialize tag ptr obj) (Memᴰ.head refl)) in
        let rest =
          fresh_from calls (deserialize_cached tag ptr obj c).1 next (λ k m. at k (Memᴰ.tail m)) in
        cc (same, rest)
    fresh_from (clear ∷ calls) c v at =
        fresh_from calls (clear_resource_cache c) (clear-Coherent c v) (λ k m. at k (Memᴰ.tail m))

    -- As long as no two objects share an address and a version: any sequence of deserializations of
    -- any types, and of clearings, from an empty cache, answers each time what deserialization
    -- without the cache does.
    pub cached_answers-fresh_answers :
        (calls : List CacheCall)
        → ((call : CacheCall) → Memᴰ call calls → IsAt call)
        → cached_answers calls empty_cache ≡ fresh_answers calls
    unfolding lookup
    cached_answers-fresh_answers calls at =
        fresh_from calls empty_cache (λ p e found. absurd (none≢some found)) at
