-- ===== src/Reflectors/Store.antt =====
-- store.rs: the map of reflectors under its lock, and the operations on it. A reflector's task, its
-- token and its store have one number. Starting a task never fails, and what it has stored so far is
-- an argument of the reads.
use kubectl_nvim.Prelude.{
  ℕ, ◌+◌, Text, txt, text_eq, option_eq, pair_eq, ◌==◌, Bool, true, false, ◌&&◌, ◌||◌, is_some, or,
  Option, none, some, List, [], ◌∷◌, map, keep, find, HashMap, lookup, insert, remove, contains_key,
  if◌then◌else◌,
}
use kubectl_nvim.EventQueue.Queue.{Queue, notify_named}

pub record TypeMeta : Type 0 where
  pub kind : Text
  pub api_version : Text

pub record DynamicObject : Type 0 where
  pub name_any : Text
  pub namespace : Option Text
  pub types : Option TypeMeta
  pub managed_fields : List Text
  -- The entry `api_version` of the data.
  pub api_version : Option Text

pub record ReflectorData : Type 0 where
  pub store : ℕ
  pub task : ℕ

-- `none` is for all namespaces.
abbrev pub ReflectorKey : Type 0
ReflectorKey = Text × Option Text

abbrev pub StoreMap : Type 0
StoreMap = HashMap ReflectorKey ReflectorData

-- The map, and what became of the tasks that were started.
pub record World : Type 0 where
  pub reflectors : StoreMap
  pub poisoned : Bool
  pub started : ℕ
  pub cancelled : List ℕ
  pub aborted : List ℕ

abbrev pub no_reflectors : World
no_reflectors = record {
  reflectors = [];
  poisoned = false;
  started = 0;
  cancelled = [];
  aborted = [];
}

abbrev pub shut_down_found : ReflectorKey → World → Option ReflectorData → World
shut_down_found k w none = w
shut_down_found k w (some entry) = record w {
  reflectors = remove k w.reflectors;
  cancelled = entry.task ∷ w.cancelled;
  aborted = entry.task ∷ w.aborted;
}

-- Removes a reflector and ends its task.
unfoldable pub shut_down : ReflectorKey → World → World
shut_down k w = shut_down_found k w (lookup k w.reflectors)

abbrev pub shut_down_each : List ReflectorKey → World → World
shut_down_each [] w = w
shut_down_each (k ∷ ks) w = shut_down_each ks (shut_down k w)

abbrev pub keys : StoreMap → List ReflectorKey
keys = map (λ (e : ReflectorKey × ReflectorData). e.0)

unfoldable pub shutdown_all_reflectors : World → World
shutdown_all_reflectors w = if w.poisoned then w else shut_down_each (keys w.reflectors) w

abbrev pub is_namespaced : Text → ReflectorKey → Bool
is_namespaced kind (k, ns) = (k == kind) && is_some ns

unfoldable pub shutdown_namespaced_reflectors : Text → World → World
shutdown_namespaced_reflectors kind w =
    shut_down_each (keep (is_namespaced kind) (keys w.reflectors)) w

abbrev pub redundant : Text → Option Text → World → World
redundant kind none w = shutdown_namespaced_reflectors kind w
redundant kind (some ns) w = w

-- `create_reflector`, and the insertion of what it gives.
unfoldable pub create_reflector : ReflectorKey → World → World
create_reflector k w = record w {
  reflectors = insert k (record { store = w.started; task = w.started }) w.reflectors;
  started = w.started + 1;
}

abbrev pub is_covered : Text → Option Text → StoreMap → Bool
is_covered kind namespace m = contains_key (kind, none) m || contains_key (kind, namespace) m

abbrev pub init_free : Text → Option Text → World → Bool → World
init_free kind namespace w true = w
init_free kind namespace w false = create_reflector (kind, namespace) (redundant kind namespace w)

-- With a poisoned lock this is an error, and nothing changes.
unfoldable pub init_reflector_for_kind : Text → Option Text → World → World
init_reflector_for_kind kind namespace w =
    if w.poisoned then w else init_free kind namespace w (is_covered kind namespace w.reflectors)

-- What is done to each object that the watcher gives.
unfoldable pub modify : Text → Text → DynamicObject → DynamicObject
modify ar_kind api_version resource = record resource {
  managed_fields = [];
  api_version = some api_version;
  types = elim resource.types [
    | none ↦ some (record { kind = ar_kind; api_version = api_version })
    | some types ↦ some types
  ];
}

pub data WatchEvent : Type 0 where
  apply delete init_apply : DynamicObject → WatchEvent
  init init_done : WatchEvent

abbrev pub notify_payload : Text → Option Text → Queue → Queue
notify_payload kind none q = q
notify_payload kind (some payload) q =
    (notify_named (record { name = kind; payload = payload }) q).1

-- `to_text` gives the JSON text of the payload.
unfoldable pub emit_event : (Text → DynamicObject → Option Text) → Text → WatchEvent → Queue → Queue
emit_event to_text kind (apply obj) q = notify_payload kind (to_text (txt "MODIFIED") obj) q
emit_event to_text kind (delete obj) q = notify_payload kind (to_text (txt "DELETED") obj) q
emit_event to_text kind other q = q

unfoldable pub matches_namespace : Option Text → DynamicObject → Bool
matches_namespace namespace obj = elim obj.namespace [
  | none ↦ true
  | some obj_ns ↦ elim namespace [ none ↦ true | some ns ↦ obj_ns == ns ]
]

pub data Answer (A : Type 0) : Type 0 where
  ok : A → Answer A
  lock_poisoned no_store : Answer A

abbrev pub found_data : Text → Option Text → StoreMap → Option ReflectorData
found_data kind namespace m = or (lookup (kind, none) m) (lookup (kind, namespace) m)

module _ (state : ℕ → List DynamicObject) where
  abbrev pub list_data : Option Text → Option ReflectorData → Answer (List DynamicObject)
  list_data namespace none = ok []
  list_data namespace (some entry) = ok (keep (matches_namespace namespace) (state entry.store))

  unfoldable pub get : Text → Option Text → World → Answer (List DynamicObject)
  get kind namespace w =
      if w.poisoned
      then lock_poisoned
      else list_data namespace (found_data kind namespace w.reflectors)

  abbrev pub single_data : Option Text → Text → Option ReflectorData → Answer (Option DynamicObject)
  single_data namespace name none = no_store
  single_data namespace name (some entry) =
      ok (
        find (λ obj. (obj.name_any == name) && matches_namespace namespace obj) (state entry.store))

  unfoldable pub get_single : Text → Option Text → Text → World → Answer (Option DynamicObject)
  get_single kind namespace name w =
      if w.poisoned
      then lock_poisoned
      else single_data namespace name (found_data kind namespace w.reflectors)
