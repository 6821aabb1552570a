-- ===== src/Views/Top.antt =====
-- ui/views/top/state.rs: the state of the top view. `cursor_line` is a `u16`, which is only stored.
use kubectl_nvim.Prelude.{
  ℕ, ◌+◌, ◌%◌, ◌<◌, ◌≡◌, ◌≢◌, refl, Text, text_eq, pair_eq, ◌==◌, Option, none, some, Bool, true,
  false, ◌&&◌, not, if◌then◌else◌, arith,
}

pub record TopViewState : Type 0 where
  pub selected_tab : ℕ
  pub cursor_line : ℕ
  pub expanded_pod : Option (Text × Text)

unfoldable pub next_tab : TopViewState → TopViewState
next_tab s = record s { selected_tab = (s.selected_tab + 1) % 2 }

unfoldable pub set_cursor : ℕ → TopViewState → TopViewState
set_cursor line s = record s { cursor_line = line }

abbrev pub is_pod : Text → Text → Option (Text × Text) → Bool
is_pod namespace name none = false
is_pod namespace name (some (ns, n)) = ns == namespace && n == name

unfoldable pub toggle_expansion : Text → Text → TopViewState → TopViewState
toggle_expansion namespace name s = record s {
  expanded_pod = if is_pod namespace name s.expanded_pod then none else some (namespace, name);
}

unfoldable pub is_expanded : Text → Text → TopViewState → Bool
is_expanded namespace name s = is_pod namespace name s.expanded_pod

is_pod_cases :
    (b : Bool) (namespace name ns n : Text)
    → is_pod ns n (if b then none else some (namespace, name))
      ≡ (not b && (namespace == ns && name == n))
is_pod_cases true namespace name ns n = refl
is_pod_cases false namespace name ns n = refl

-- After a toggle a pod is expanded just if it is the one toggled and that one was not expanded
-- before: no two pods are ever expanded.
pub is_expanded-toggle_expansion :
    (namespace name ns n : Text) (s : TopViewState)
    → is_expanded ns n (toggle_expansion namespace name s)
      ≡ (not (is_expanded namespace name s) && (namespace == ns && name == n))
unfolding toggle_expansion is_expanded
is_expanded-toggle_expansion namespace name ns n s =
    is_pod_cases (is_pod namespace name s.expanded_pod) namespace name ns n

-- The tab stays one of the two, and changes, and two steps lead back.
pub next_tab_lem :
    (s : TopViewState)
    → s.selected_tab < 2
    → ((next_tab s).selected_tab < 2)
      × ((next_tab s).selected_tab ≢ s.selected_tab)
      × ((next_tab (next_tab s)).selected_tab ≡ s.selected_tab)
unfolding next_tab
next_tab_lem s h = (omega arith, λ e. omega arith, omega arith)
