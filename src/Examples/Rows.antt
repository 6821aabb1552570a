-- ===== src/Examples/Rows.antt =====
-- The theorems on statuses and on the rows of a view, applied to concrete values.
use kubectl_nvim.Prelude.{
  ◌∙◌, sym, inr, ◌≡◌, ◌↔◌, refl, Text, txt, text_eq, text_beq, ◌==◌, Option, none, some, List, [],
  ◌∷◌, Memᴰ, keep, any, false, Bool, insert, lookup, text_beq_iff,
}
use kubectl_nvim.Processors.Fields.{pos}
use kubectl_nvim.Processors.Pod.Types.{ContainerStatus, PodStatus, Pod}
use kubectl_nvim.Processors.Pod.Containers.{
  get_container_status, get_init_container_status, first_init_status, check_init_container_status,
}
use kubectl_nvim.Processors.Pod.Status.{get_pod_status}
use kubectl_nvim.Processors.Pod.Reports.{first_reported, counts_running, get_container_status_first}
use kubectl_nvim.Views.Sort.{sort_dynamic}
use kubectl_nvim.Views.Sorted.{sort_dynamic-Sorted, Sorted, Alike, missing}
use kubectl_nvim.Views.Top.{TopViewState}

abbrev crashing : ContainerStatus
crashing = record {
  name = txt "a";
  ready = false;
  started = none;
  state = some (record {
    waiting = some (record { reason = some (txt "CrashLoopBackOff"); message = none });
    terminated = none;
    is_running = false;
  });
}

abbrev finished : ContainerStatus
finished = record {
  name = txt "b";
  ready = false;
  started = none;
  state = some (record {
    waiting = none;
    terminated = some (record {
      exit_code = pos 0;
      signal = none;
      reason = some (txt "Completed");
      message = none;
    });
    is_running = false;
  });
}

get_container_status_first_example :
    ((get_container_status (crashing ∷ finished ∷ []) (txt "Running")).status
      ≡ first_reported (crashing ∷ finished ∷ []) (txt "Running"))
    × ((get_container_status (crashing ∷ finished ∷ []) (txt "Running")).running
        ≡ any counts_running (crashing ∷ finished ∷ []))
get_container_status_first_example =
    get_container_status_first (crashing ∷ finished ∷ []) (txt "Running")

abbrev done_status : PodStatus
done_status = record {
  phase = some (txt "Succeeded");
  reason = none;
  init_container_statuses = none;
  container_statuses = some (finished ∷ []);
}

abbrev done_pod : Pod
done_pod = record { is_deleted = false; spec = none; status = some done_status }

done_shown : (get_pod_status done_pod).value ≡ txt "Completed"
unfolding get_pod_status get_init_container_status get_container_status text_beq
done_shown = refl

abbrev starting_status : PodStatus
starting_status = record done_status { init_container_statuses = some (crashing ∷ []) }

abbrev starting_pod : Pod
starting_pod = record {
  is_deleted = false;
  spec = some (record {
    containers = [];
    init_containers = some (record { name = txt "a"; restart_policy = none } ∷ []);
  });
  status = some starting_status;
}

starting_init :
    get_init_container_status starting_pod starting_status ≡ some (txt "Init:CrashLoopBackOff")
unfolding get_init_container_status first_init_status check_init_container_status text_beq insert
    lookup
starting_init = refl

-- A row that is its own name.
abbrev name_of : Text → Text → Option Text
name_of row field = some row

abbrev rows : List Text
rows = txt "foo" ∷ txt "bar" ∷ []

abbrev is_foo : Text → Bool
is_foo row = row == txt "foo"

foo-Alike : Alike name_of (txt "namespace") is_foo
foo-Alike a b h k =
    let same : a ≡ b = (text_beq_iff a (txt "foo")).0 h ∙ sym ((text_beq_iff b (txt "foo")).0 k) in
    (same, inr same)

sort_dynamic-Sorted_example :
    ((row : Text) → Memᴰ row (sort_dynamic name_of none none rows) ↔ Memᴰ row rows)
    × Sorted name_of (txt "namespace") (txt "asc") (sort_dynamic name_of none none rows)
    × (keep is_foo (sort_dynamic name_of none none rows) ≡ keep is_foo rows)
sort_dynamic-Sorted_example =
    sort_dynamic-Sorted name_of none none (txt "namespace") (txt "asc") rows is_foo missing missing
      foo-Alike

abbrev top : TopViewState
top = record { selected_tab = 1; cursor_line = 0; expanded_pod = some (txt "d", txt "p") }
