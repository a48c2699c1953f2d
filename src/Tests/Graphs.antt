-- ===== src/Tests/Graphs.antt =====
-- The theorems on traversals at a small graph.
use mirk.Common.{
  ℕ, ◌*◌, ◌<◌, length, subst, ◌≡◌, ◌≢◌, ◌↔◌, refl, sym, ap, ◌∙◌, true, false, none, some, List, [],
  ◌∷◌, inl, inr, arith,
}
use mirk.Text.{ascii, str_eq, compare_code_points, compare_list, code_points}
use mirk.Sort.{insert, sort}
use mirk.Map
use Prim.Native.String.{String}
use mirk.Js.{Fields, end, field}
use mirk.Filter.{max_in_values}
use mirk.Graph.{
  Edge, both, hops_of, EdgeStore, TraversalOptions, includes, traverse, traverse_frontier_batched,
  without_where_field, breadth_first, fetch_indexed, index_edges, add_adjacent, filter_by_types,
  run_hops, visit_level, visit_edges, note_edge, note_node, begin, finish,
}
use mirk.Graph.Levels.{Within}
use mirk.Graph.Adjacency.{Links, candidates}
use mirk.Graph.Reach.{traverse-reached}
use mirk.Memory.State.{Store, continue}
use mirk.Memory.Values.{put, ensure_collection}
use mirk.Memory.Queries.{list, apply_filter}
use mirk.Graph.InMemory.{
  edge_of, edges_of, edges_in, memory_edges, memory_edges-from, memory_edges-to,
}
use mirk.Tests.{nat_number, never_less, text, empty_store, program}
use mirk.Graph.Batched.{HasUniqueIds, traverse_frontier_batched-reached}

abbrev edge : String → String → String → Edge ℕ
edge i a b = record { id = ascii i; from = ascii a; to = ascii b; kind = ascii "k"; rest = end }

abbrev two_edges : List (Edge ℕ)
two_edges = edge "1" "a" "b" ∷ edge "2" "b" "c" ∷ []

abbrev small : EdgeStore ℕ
small = record {
  list = λ c f. two_edges;
  list_where_in = none;
  can_traverse = λ c. false;
  traverse_graph = λ c o. record { nodes = []; edges = [] };
}

abbrev two_hops : TraversalOptions ℕ
two_hops = record {
  start = ascii "a";
  depth = hops_of 2;
  direction = some both;
  edge_types = none;
  edge_filter = none;
}

two_hops_run : (traverse small (ascii "e") two_hops).nodes ≡ ascii "b" ∷ ascii "c" ∷ []
unfolding traverse breadth_first fetch_indexed index_edges add_adjacent filter_by_types run_hops
    visit_level visit_edges note_edge note_node begin finish includes str_eq sort insert
    compare_code_points compare_list code_points Map.get Map.set
two_hops_run = refl

traverse-reached_example :
    (includes (ascii "c") (traverse small (ascii "e") two_hops).nodes ≡ true) ↔ (
      (ascii "c" ≢ ascii "a")
      × Within (Links both (candidates small (ascii "e") two_hops)) (ascii "a") 2 (ascii "c"))
traverse-reached_example = traverse-reached small (ascii "e") two_hops 2 (ascii "c") refl refl

-- Two edges put into a collection of an in-memory store.
abbrev edge_fields : String → String → String → Fields ℕ
edge_fields i a b = field (ascii "id") (text i) (
    field (ascii "from") (text a)
      (field (ascii "to") (text b) (field (ascii "type") (text "k") end)))

abbrev graph_store : Store ℕ
graph_store =
    (put (ascii "e") (edge_fields "2" "b" "c")
      (put (ascii "e") (edge_fields "1" "a" "b") empty_store).1).1

abbrev stored : String → String → String → Edge ℕ
stored i a b = record {
  id = ascii i;
  from = ascii a;
  to = ascii b;
  kind = ascii "k";
  rest = edge_fields i a b;
}

abbrev stored_edges : List (Edge ℕ)
stored_edges = stored "1" "a" "b" ∷ stored "2" "b" "c" ∷ []

listed_run : (memory_edges graph_store).list (ascii "e") none ≡ stored_edges
unfolding program list apply_filter continue edges_of edge_of put ensure_collection Map.values
listed_run = refl

unique_ids : HasUniqueIds stored_edges
unique_ids a b (inl p) (inl q) e = cc
unique_ids a b (inl p) (inr (inl q)) e =
    let same : ascii "1" ≡ ascii "2" = sym (ap (λ x. x.id) p) ∙ e ∙ ap (λ x. x.id) q in
    absurd (ground arith)
unique_ids a b (inr (inl p)) (inl q) e =
    let same : ascii "2" ≡ ascii "1" = sym (ap (λ x. x.id) p) ∙ e ∙ ap (λ x. x.id) q in
    absurd (ground arith)
unique_ids a b (inr (inl p)) (inr (inl q)) e = cc
unique_ids a b p (inr (inr q)) e = absurd q
unique_ids a b (inr (inr p)) q e = absurd p

few_edges : 2 * length ((memory_edges graph_store).list (ascii "e") none) < max_in_values
few_edges = subst (λ es. 2 * length es < max_in_values) (sym listed_run) (omega arith)

traverse_frontier_batched-reached_example :
    includes
      (ascii "c")
      (traverse_frontier_batched (memory_edges graph_store) (ascii "e") two_hops).nodes
    ≡ includes (ascii "c") (traverse (memory_edges graph_store) (ascii "e") two_hops).nodes
unfolding without_where_field
traverse_frontier_batched-reached_example =
    traverse_frontier_batched-reached (memory_edges graph_store) (ascii "e") two_hops
      (edges_in graph_store) max_in_values (memory_edges-from (ascii "e") graph_store refl)
      (memory_edges-to (ascii "e") graph_store refl) few_edges
      (subst (λ es. HasUniqueIds es) (sym listed_run) unique_ids) refl refl 2 (ascii "c") refl refl
      refl
