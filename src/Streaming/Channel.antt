-- ===== src/Streaming/Channel.antt =====
-- tokio's unbounded channel, as far as streaming.rs calls it.
use kubectl_nvim.Prelude.{◌≡◌, Option, none, some, List, [], ◌∷◌, ◌++◌}

abbrev pub uncons : {A : Type 0} → List A → Option (A × List A)
uncons [] = none
uncons (x ∷ xs) = some (x, xs)

abbrev pub seen : {A C : Type 0} → (C → List A) → Option (A × C) → Option (A × List A)
seen f none = none
seen f (some (x, c)) = some (x, f c)

-- Messages are received in the order in which they were sent.
pub record Channel (T : Type 0) : Type 1 where
  pub Chan : Type 0
  pub unbounded : Chan
  pub send : Chan → T → Chan
  pub try_recv : Chan → Option (T × Chan)
  pub waiting : Chan → List T
  pub unbounded_waiting : waiting unbounded ≡ []
  pub send_waiting : (c : Chan) (m : T) → waiting (send c m) ≡ waiting c ++ m ∷ []
  pub try_recv_waiting : (c : Chan) → seen waiting (try_recv c) ≡ uncons (waiting c)
