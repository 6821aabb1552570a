-- ===== src/Streaming/Session.antt =====
-- streaming.rs: `StreamingSession`, `TaskHandle` and `TaskGuard`, by their atomic accesses, one
-- after the other. The lock is never poisoned here, as no call that is made under it panics.
use kubectl_nvim.Prelude.{
  ℕ, zero, suc, ◌+◌, ◌-◌, ◌%◌, ◌^◌, ◌≡◌, Bool, true, false, Option, none, some, List, [], ◌∷◌,
  if◌then◌else◌, nat_eq,
}
use kubectl_nvim.Streaming.Channel.{Channel}

-- The number of values of a `usize`.
abbrev pub modulus : ℕ
modulus = 2 ^ 64

module _ {T : Type 0} (C : Channel T) where
  -- Beside the fields of the session: the guards that live, and the tasks that took the count to
  -- zero and have not stored `false` yet.
  pub record Session : Type 0 where
    pub receiver : C.Chan
    pub is_active : Bool
    pub active_task_count : ℕ
    pub guards : ℕ
    pub finishing : ℕ

  abbrev pub new : Session
  new = record {
    receiver = C.unbounded;
    is_active = true;
    active_task_count = 0;
    guards = 0;
    finishing = 0;
  }

  abbrev pub is_open : Session → Bool
  is_open s = s.is_active

  -- `close` and `force_close`.
  unfoldable pub close : Session → Session
  close s = record s { is_active = false }

  -- `guard`, which calls `task_started`.
  unfoldable pub guard : Session → Session
  guard s = record s {
    active_task_count = (s.active_task_count + 1) % modulus;
    guards = s.guards + 1;
  }

  abbrev pub remaining : Session → ℕ
  remaining s = (s.active_task_count + (modulus - 1)) % modulus

  -- The first half of `task_completed`, when a guard is dropped: `fetch_sub`.
  unfoldable pub count_down : Session → Session
  count_down s = record s {
    active_task_count = remaining s;
    guards = s.guards - 1;
    finishing = if nat_eq (remaining s) 0 then s.finishing + 1 else s.finishing;
  }

  -- Its second half: the store.
  unfoldable pub mark_inactive : Session → Session
  mark_inactive s = record s { is_active = false; finishing = s.finishing - 1 }

  unfoldable pub send : T → Session → Session
  send m s = record s { receiver = C.send s.receiver m }

  abbrev pub received : Session → Option (T × C.Chan) → Option T × Session
  received s none = (none, s)
  received s (some (m, c)) = (some m, record s { receiver = c })

  -- Under the lock. An empty channel and a closed one give the same.
  unfoldable pub try_recv : Session → Option T × Session
  try_recv s = received s (C.try_recv s.receiver)

  abbrev pub push_batch : Option T → List T × Session → Session → List T × Session
  push_batch none (ms, t) s = ([], s)
  push_batch (some m) (ms, t) s = (m ∷ ms, t)

  -- `try_recv_batch` under the lock: at most `limit` messages.
  unfoldable pub try_recv_batch : ℕ → Session → List T × Session
  try_recv_batch zero s = ([], s)
  try_recv_batch (suc limit) s = let (m, t) = try_recv s in push_batch m (try_recv_batch limit t) s

  -- One atomic access of any thread.
  pub data Step (s : Session) : Session → Type 0 where
    closes : Step s (close s)
    starts : Step s (guard s)
    drops : (n : ℕ) → s.guards ≡ suc n → Step s (count_down s)
    stores : (n : ℕ) → s.finishing ≡ suc n → Step s (mark_inactive s)
    sends : (m : T) → Step s (send m s)
    receives : Step s (try_recv s).1

  pub data Steps (s : Session) : Session → Type 0 where
    stop : Steps s s
    after : {t u : Session} → Steps s t → Step t u → Steps s u
