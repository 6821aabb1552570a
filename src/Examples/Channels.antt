-- ===== src/Examples/Channels.antt =====
-- The theorem on the event queue, applied to a few calls.
use kubectl_nvim.Prelude.{◌≡◌, none, List, [], ◌∷◌, txt}
use kubectl_nvim.EventQueue.Queue.{
  Event, unset, Call, setup_queue, pop_queue, emit_event, notify, answers,
}
use kubectl_nvim.EventQueue.Refinement.{expected, answers_refine}

abbrev some_event : Event
some_event = record { name = txt "pod"; payload = txt "{}" }

abbrev some_calls : List Call
some_calls =
    notify some_event
    ∷ pop_queue
    ∷ emit_event some_event
    ∷ notify some_event
    ∷ pop_queue
    ∷ setup_queue
    ∷ []

answers_refine_example : answers some_calls unset ≡ expected some_calls none
answers_refine_example = answers_refine some_calls
