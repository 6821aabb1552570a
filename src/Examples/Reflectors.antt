-- ===== src/Examples/Reflectors.antt =====
-- The theorems on reflectors, applied to a sequence of calls.
use kubectl_nvim.Prelude.{
  ◌≡◌, ◌↔◌, refl, ℕ, ◌<◌, Text, txt, text_eq, option_eq, pair_eq, lookup, remove, contains_key,
  Option, none, some, List, [], ◌∷◌, Memᴰ, keep, find, arith, insert, text_beq, remove,
}
use kubectl_nvim.Reflectors.Store.{
  ReflectorData, ReflectorKey, DynamicObject, no_reflectors, init_reflector_for_kind,
  matches_namespace, ok, found_data, get, get_single, create_reflector,
  shutdown_namespaced_reflectors, shut_down,
}
use kubectl_nvim.Reflectors.Accounts.{Held}
use kubectl_nvim.Reflectors.Exclusive.{
  Call, init, shutdown, after_all, reflectors_exclusive, uncancelled-Held,
}
use kubectl_nvim.Reflectors.Reads.{named, initialised, init_reads}

abbrev pods : Text
pods = txt "Pod"

abbrev here : Option Text
here = some (txt "d")

-- Pods of one namespace, then all pods, which replaces the first reflector.
abbrev calls : List Call
calls = init pods here ∷ init pods none ∷ []

abbrev all_pods : ReflectorData
all_pods = record { store = 1; task = 1 }

all_pods_held : lookup (pods, none) (after_all calls no_reflectors).reflectors ≡ some all_pods
unfolding init_reflector_for_kind contains_key lookup create_reflector insert text_beq
    shutdown_namespaced_reflectors shut_down remove
all_pods_held = refl

reflectors_exclusive_example : lookup (pods, here) (after_all calls no_reflectors).reflectors ≡ none
reflectors_exclusive_example = reflectors_exclusive calls pods (txt "d") all_pods all_pods_held

two_started : 1 < (after_all calls no_reflectors).started
unfolding init_reflector_for_kind contains_key lookup create_reflector insert text_beq
    shutdown_namespaced_reflectors shut_down remove
two_started = omega arith

uncancelled-Held_example :
    ((Memᴰ 1 (after_all calls no_reflectors).cancelled → ⊥)
      ↔ Held (after_all calls no_reflectors).reflectors 1)
    × ((after_all calls no_reflectors).aborted ≡ (after_all calls no_reflectors).cancelled)
uncancelled-Held_example = uncancelled-Held calls 1 two_started

abbrev object : DynamicObject
object = record {
  name_any = txt "p";
  namespace = here;
  types = none;
  managed_fields = [];
  api_version = none;
}

abbrev state : ℕ → List DynamicObject
state n = object ∷ []

abbrev later : List ReflectorKey
later = (pods, none) ∷ (txt "Node", none) ∷ []

init_reads_example :
    (d : ReflectorData) × (found_data pods here
        (initialised (shutdown ∷ calls) pods here later).reflectors
      ≡ some d)
    × (Memᴰ d.task (initialised (shutdown ∷ calls) pods here later).cancelled → ⊥)
    × (get state pods here (initialised (shutdown ∷ calls) pods here later)
        ≡ ok (keep (matches_namespace here) (state d.store)))
    × (get_single state pods here (txt "p") (initialised (shutdown ∷ calls) pods here later)
        ≡ ok (find (named (txt "p")) (keep (matches_namespace here) (state d.store))))
init_reads_example = init_reads state (shutdown ∷ calls) pods here later (txt "p")
