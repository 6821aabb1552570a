-- ===== src/Examples/Streaming.antt =====
-- The theorems on streaming sessions, applied to a channel that is a list.
use kubectl_nvim.Prelude.{ℕ, ◌≡◌, refl, false, Option, none, some, List, [], ◌∷◌, ◌++◌}
use kubectl_nvim.Streaming.Channel.{Channel, uncons, seen}
use kubectl_nvim.Streaming.Session.{
  Session, new, guard, count_down, mark_inactive, send, try_recv_batch, starts, drops, stores,
  sends, Steps, stop, after,
}
use kubectl_nvim.Streaming.Tasks.{last_task_closes}
use kubectl_nvim.Streaming.Bidirectional.{
  new_bidirectional, take_input_receiver, send_input, read, InputCall, take_receiver, send_message,
  read_receiver, discard, discard_receiver, call, call_all, accepted, all_accepted, all_removed,
}
use kubectl_nvim.Streaming.Delivery.{input_delivered}
use kubectl_nvim.Streaming.Taken.{once_taken, later_receiver_idle}
use kubectl_nvim.Streaming.Receive.{take, drop, try_recv_batch-take}

seen_same : (o : Option (ℕ × List ℕ)) → seen (λ c. c) o ≡ o
seen_same none = refl
seen_same (some (x, c)) = refl

abbrev list_channel : Channel ℕ
list_channel = record {
  Chan = List ℕ;
  unbounded = [];
  send = λ c m. c ++ m ∷ [];
  try_recv = uncons;
  waiting = λ c. c;
  unbounded_waiting = refl;
  send_waiting = λ c m. refl;
  try_recv_waiting = λ c. seen_same (uncons c);
}

abbrev one_task : Session list_channel
one_task = guard list_channel (new list_channel)

abbrev two_tasks : Session list_channel
two_tasks = send list_channel 7 (guard list_channel one_task)

abbrev no_task : Session list_channel
no_task = count_down list_channel (count_down list_channel two_tasks)

abbrev ended : Session list_channel
ended = mark_inactive list_channel no_task

two_started : Steps list_channel one_task two_tasks
two_started = after (after stop starts) (sends 7)

all_dropped : Steps list_channel one_task ended
unfolding guard send count_down mark_inactive
all_dropped = after (after (after two_started (drops 1 refl)) (drops 0 refl)) (stores 0 refl)

two_from_new : Steps list_channel (new list_channel) two_tasks
two_from_new = after (after (after stop starts) starts) (sends 7)

last_task_closes_example : ended.is_active ≡ false
unfolding guard send count_down mark_inactive
last_task_closes_example =
    last_task_closes list_channel (new list_channel) ended stop all_dropped refl refl

try_recv_batch-take_example :
    ((try_recv_batch list_channel 1 (send list_channel 9 two_tasks)).0
      ≡ take 1 (send list_channel 9 two_tasks).receiver)
    × ((try_recv_batch list_channel 1 (send list_channel 9 two_tasks)).1.receiver
        ≡ drop 1 (send list_channel 9 two_tasks).receiver)
try_recv_batch-take_example = try_recv_batch-take list_channel 1 (send list_channel 9 two_tasks)

-- The receiver is taken, a message is sent and read, another is sent and lost with the receiver, and
-- no more can be sent.
abbrev writer : List (InputCall list_channel list_channel)
writer =
    take_receiver
    ∷ send_message 7
    ∷ read_receiver 0
    ∷ send_message 8
    ∷ discard_receiver 0
    ∷ send_message 9
    ∷ []

input_delivered_example :
    all_removed list_channel list_channel writer (new_bidirectional list_channel list_channel)
      ++ (call_all list_channel list_channel writer
            (new_bidirectional list_channel list_channel)).channels
          0
    ≡ all_accepted list_channel list_channel writer (new_bidirectional list_channel list_channel)
input_delivered_example = input_delivered list_channel list_channel writer

-- Both messages are accepted.
both_accepted :
    all_accepted list_channel list_channel writer (new_bidirectional list_channel list_channel)
    ≡ 7 ∷ 8 ∷ []
unfolding all_accepted accepted call take_input_receiver send_input read discard
both_accepted = refl

later_receiver_idle_example :
    (r : ℕ) × ((take_input_receiver list_channel list_channel
        (once_taken list_channel list_channel [] writer)).0
      ≡ some r)
    × ((read list_channel list_channel r (
          call_all list_channel list_channel writer (
            call list_channel list_channel take_receiver
              (once_taken list_channel list_channel [] writer)))).0
        ≡ none)
later_receiver_idle_example = later_receiver_idle list_channel list_channel [] writer writer
