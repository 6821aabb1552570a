-- ===== src/Lineage/Graph/Vectors.antt =====
-- A graph kept in two lists meets the interface.
use kubectl_nvim.Prelude.{
  ℕ, zero, suc, ◌+◌, ◌≤◌, ◌<◌, ◌≡◌, ◌↔◌, inl, inr, refl, Bool, true, false, not, ◌&&◌, none, some,
  List, [], ◌∷◌, ◌++◌, Memᴰ, length, get_elem?, set, keep, find, any, nat_eq, nat_eq_iff, Memᴰ-keep,
  Option-cases, arith, if◌then◌else◌, Memᴰ-cons, ap, find-some, find-none,
}
use mathlib.Core.List.Memᴰ
use kubectl_nvim.Lineage.Graph.Interface.{Edge, Direction, end_at, Walk, here, step, DiGraph}

pub record Vectors (N E : Type 0) : Type 0 where
  pub nodes : List N
  pub edges : List (Edge E)

abbrev is_in : ℕ → List ℕ → Bool
is_in v vs = any (nat_eq v) vs

is_in_iff : (v : ℕ) (vs : List ℕ) → (is_in v vs ≡ true) ↔ Memᴰ v vs
is_in_iff v [] = (λ h. ground arith, λ m. absurd (Memᴰ.not-nil m))
is_in_iff v (w ∷ vs) = ground (arith, Memᴰ-cons v w vs, is_in_iff v vs)

module _ {E : Type 0} where
  -- The edges that lead to a node not yet seen.
  abbrev pending : List ℕ → List (Edge E) → ℕ
  pending seen [] = 0
  pending seen (e ∷ es) = (if is_in e.target seen then 0 else 1) + pending seen es

  pending-cons_le :
      (v : ℕ) (seen : List ℕ) (es : List (Edge E)) → pending (v ∷ seen) es ≤ pending seen es
  pending-cons_le v seen [] = omega arith
  pending-cons_le v seen (e ∷ es) = ground (arith, pending-cons_le v seen es)

  pending-cons_lt :
      (e : Edge E) (seen : List ℕ) (es : List (Edge E))
      → Memᴰ e es
      → is_in e.target seen ≡ false
      → pending (e.target ∷ seen) es < pending seen es
  pending-cons_lt e seen [] m h = absurd (Memᴰ.not-nil m)
  pending-cons_lt e seen (f ∷ es) m h = elim (Memᴰ.cases_cons m) [
    | inl same ↦
        ground (arith, pending-cons_le e.target seen es, ap (λ (x : Edge E). x.target) same)
    | inr later ↦ ground (arith, pending-cons_lt e seen es later h)
  ]

  abbrev fresh : (Edge E → Bool) → List ℕ → Edge E → Bool
  fresh p seen e = p e && is_in e.source seen && not (is_in e.target seen)

module _ {E : Type 0} (es : List (Edge E)) (p : Edge E → Bool) where
  -- Follows edges that lead out of the nodes seen so far.
  unfoldable pub close : ℕ → List ℕ → List ℕ
  close zero seen = seen
  close (suc fuel) seen = elim (find (fresh p seen) es) [
    | none ↦ seen
    | some e ↦ close fuel (e.target ∷ seen)
  ]

  close_keeps : (fuel : ℕ) (seen : List ℕ) (v : ℕ) → Memᴰ v seen → Memᴰ v (close fuel seen)
  unfolding close
  close_keeps zero seen v m = m
  close_keeps (suc fuel) seen v m = elim (Option-cases (find (fresh p seen) es)) [
    | inl e ↦ rw (e, close) m
    | inr (e, found) ↦ rw (found, close) (close_keeps fuel (e.target ∷ seen) v (Memᴰ.tail m))
  ]

  close_closed :
      (fuel : ℕ) (seen : List ℕ)
      → pending seen es ≤ fuel
      → find (fresh p (close fuel seen)) es ≡ none
  unfolding close
  close_closed zero seen h = elim (Option-cases (find (fresh p seen) es)) [
    | inl e ↦ e
    | inr (e, found) ↦
        let (m, new) = find-some (fresh p seen) es found in
        absurd (ground (arith, pending-cons_lt e seen es m))
  ]
  close_closed (suc fuel) seen h = elim (Option-cases (find (fresh p seen) es)) [
    | inl e ↦ rw (e, close) e
    | inr (e, found) ↦
        let (m, new) = find-some (fresh p seen) es found in
        rw (found, close)
          (close_closed fuel (e.target ∷ seen) (ground (arith, pending-cons_lt e seen es m)))
  ]

  close_sound :
      (a fuel : ℕ) (seen : List ℕ)
      → ((v : ℕ) → Memᴰ v seen → Walk es p a v)
      → (v : ℕ) → Memᴰ v (close fuel seen)
      → Walk es p a v
  unfolding close
  close_sound a zero seen h v m = h v m
  close_sound a (suc fuel) seen h v m = elim (Option-cases (find (fresh p seen) es)) [
    | inl e ↦ h v (rw (e, close) at m)
    | inr (e, found) ↦
        let (edge, new) = find-some (fresh p seen) es found in
        let from = (is_in_iff e.source seen).0 (ground arith) in
        let walk = step e (h e.source from) edge (ground arith) in
        close_sound a fuel (e.target ∷ seen)
          (λ w n. elim (Memᴰ.cases_cons n) [ inl eq ↦ rw eq walk | inr old ↦ h w old ]) v
          (rw (found, close) at m)
  ]

  unfoldable pub reach : ℕ → List ℕ
  reach a = close (pending (a ∷ []) es) (a ∷ [])

  reach_complete : (a : ℕ) {b : ℕ} → Walk es p a b → Memᴰ b (reach a)
  unfolding reach
  reach_complete a here = close_keeps (pending (a ∷ []) es) (a ∷ []) a (Memᴰ.head refl)
  reach_complete a (step e w m h) =
      let seen = close (pending (a ∷ []) es) (a ∷ []) in
      let done =
        find-none (fresh p seen) e es (close_closed (pending (a ∷ []) es) (a ∷ []) (omega arith))
          m in
      (is_in_iff e.target seen).0 (ground (arith, is_in_iff e.source seen, reach_complete a w))

  pub reach_iff : (a b : ℕ) → Memᴰ b (reach a) ↔ Walk es p a b
  unfolding reach
  reach_iff a b = (
    close_sound a (pending (a ∷ []) es) (a ∷ [])
        (λ v m. elim (Memᴰ.cases_cons m) [ inl e ↦ rw e here | inr n ↦ absurd (Memᴰ.not-nil n) ]) b,
    reach_complete a,
  )

abbrev pub at_end : {E : Type 0} → Direction → ℕ → Edge E → Bool
at_end d i e = nat_eq (end_at d e) i

pub directed_iff :
    {E : Type 0} (es : List (Edge E)) (i : ℕ) (d : Direction) (e : Edge E)
    → Memᴰ e (keep (at_end d i) es) ↔ (Memᴰ e es × (end_at d e ≡ i))
directed_iff es i d e = ground (arith, Memᴰ-keep (at_end d i) e es, nat_eq_iff (end_at d e) i)

-- Nodes and edges in the order in which they were added.
unfoldable pub vectors : (N E : Type 0) → DiGraph N E
unfolding reach close
vectors N E = record {
  Graph = Vectors N E;
  new = record { nodes = []; edges = [] };
  add_node = λ g n. (record g { nodes = g.nodes ++ n ∷ [] }, length g.nodes);
  add_edge =
      λ g a b w. record g { edges = g.edges ++ record { source = a; target = b; weight = w } ∷ [] };
  node_weight = λ g i. get_elem? g.nodes i;
  set_weight = λ g i n. record g { nodes = set g.nodes i n };
  raw_nodes = λ g. g.nodes;
  raw_edges = λ g. g.edges;
  edges_directed = λ g i d. keep (at_end d i) g.edges;
  dfs = λ g p a. reach g.edges p a;
  new_nodes = refl;
  new_edges = refl;
  add_node_index = λ g n. refl;
  add_node_nodes = λ g n. refl;
  add_node_edges = λ g n. refl;
  add_edge_nodes = λ g a b w. refl;
  add_edge_edges = λ g a b w ha hb. refl;
  node_weight_lem = λ g i. refl;
  set_weight_nodes = λ g i n. refl;
  set_weight_edges = λ g i n. refl;
  edges_directed_iff = λ g i d e. directed_iff g.edges i d e;
  dfs_iff = λ g p a b. reach_iff g.edges p a b;
}
