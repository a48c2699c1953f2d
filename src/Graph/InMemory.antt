-- ===== src/Graph/InMemory.antt =====
-- The in-memory store as a store of edges (packages/store/src/backends/memory.ts): its IN queries
-- without a filter, of as many values as it takes, find the listed edges.
use mirk.Common.{
  ◌≡◌, ◌≤◌, ◌↔◌, refl, sym, ap, ◌∙◌, false, Option, none, some, List, [], ◌∷◌, length, map, filter,
  arith, Member, ◌⊎◌, inl, inr, ltb,
}
use mirk.Common.Result.{Result, ok, err}
use mirk.Text.{Str, ascii, is_empty}
use mirk.Text.Units.{str_eq_iff}
use mirk.Map
use mirk.Js.{Number, Js, undefined, null, opaque, bool, num, str, arr, obj, instance_of, Fields, at}
use mirk.Filter.{strict_eq, StoreFilter, Coercion, max_in_values, assert_scalars, assert_in_values}
use mirk.Memory.State.{Store, continue}
use mirk.Memory.Collections.{collection_of, ensure_collection_lem}
use mirk.Memory.Queries.{
  checked, contains, field_in, list, list_where_in, apply_filter, assert_conditions,
}
use mirk.Graph.{Edge, EdgeStore, includes}
use mirk.Graph.Sets.{includes_iff}
use mirk.Graph.Adjacency.{Member-filter}
use mirk.Graph.Batched.{AnswersIn}

-- What a call answers; one that throws finds nothing.
abbrev pub answer : {E A S : Type 0} → Result E (List A) × S → List A
answer (ok xs, s) = xs
answer (err e, s) = []

module _ {N : Type 0} where
  abbrev text : Js N → Option Str
  text (str s) = some s
  text _ = none

  abbrev with_ends : Option Str → Option Str → Option Str → Option Str → Fields N → Option (Edge N)
  with_ends (some i) (some a) (some b) (some k) fs =
      some (record { id = i; from = a; to = b; kind = k; rest = fs })
  with_ends _ _ _ _ fs = none

  -- A plain object with the fields of an edge is one.
  unfoldable pub edge_of : Js N → Option (Edge N)
  edge_of (obj fs) =
      with_ends (text (at (ascii "id") fs)) (text (at (ascii "from") fs))
        (text (at (ascii "to") fs)) (text (at (ascii "type") fs)) fs
  edge_of _ = none

  abbrev keep : Option (Edge N) → List (Edge N) → List (Edge N)
  keep none es = es
  keep (some e) es = e ∷ es

  unfoldable pub edges_of : List (Js N) → List (Edge N)
  unfolding edge_of
  edges_of [] = []
  edges_of (x ∷ xs) = keep (edge_of x) (edges_of xs)

  text-eq_some : (v : Js N) (s : Str) → text v ≡ some s → v ≡ str s
  text-eq_some (str t) s h = ground (arith, h)
  text-eq_some undefined s h = absurd (ground (arith, h))
  text-eq_some null s h = absurd (ground (arith, h))
  text-eq_some opaque s h = absurd (ground (arith, h))
  text-eq_some (bool b) s h = absurd (ground (arith, h))
  text-eq_some (num n) s h = absurd (ground (arith, h))
  text-eq_some (arr xs) s h = absurd (ground (arith, h))
  text-eq_some (obj fs) s h = absurd (ground (arith, h))
  text-eq_some (instance_of fs) s h = absurd (ground (arith, h))

  with_ends-eq_some :
      (i a b k : Option Str) (fs : Fields N) (e : Edge N)
      → with_ends i a b k fs ≡ some e
      → (a ≡ some e.from) × (b ≡ some e.to)
  with_ends-eq_some (some i) (some a) (some b) (some k) fs e h =
      let same : record { id = i; from = a; to = b; kind = k; rest = fs } ≡ e = cc h in
      (ap (λ x. some x.from) same, ap (λ x. some x.to) same)
  with_ends-eq_some none a b k fs e h = absurd (ground (arith, h))
  with_ends-eq_some (some i) none b k fs e h = absurd (ground (arith, h))
  with_ends-eq_some (some i) (some a) none k fs e h = absurd (ground (arith, h))
  with_ends-eq_some (some i) (some a) (some b) none fs e h = absurd (ground (arith, h))

  Member-keep :
      (o : Option (Edge N)) (e : Edge N) (es : List (Edge N))
      → Member e (keep o es) ↔ ((o ≡ some e) ⊎ Member e es)
  Member-keep none e es = ground arith
  Member-keep (some x) e es = ground arith

  Member-edges_of :
      (e : Edge N) (xs : List (Js N))
      → Member e (edges_of xs) ↔ ((x : Js N) × Member x xs × (edge_of x ≡ some e))
  unfolding edges_of
  Member-edges_of e [] = (λ m. absurd m, λ (x, m, h). absurd m)
  Member-edges_of e (y ∷ xs) = (
    λ m. elim ((Member-keep (edge_of y) e (edges_of xs)).0 m) [
      | inl h ↦ (y, inl refl, h)
      | inr m' ↦ let (x, n, h) = (Member-edges_of e xs).0 m' in (x, inr n, h)
    ],
    λ (x, m, h). (Member-keep (edge_of y) e (edges_of xs)).1 (elim m [
      | inl p ↦ inl (ap edge_of (sym p) ∙ h)
      | inr n ↦ inr ((Member-edges_of e xs).1 (x, n, h))
    ]),
  )

abbrev texts : (N : Type 0) → List Str → List (Js N)
texts N us = map (λ s. str s) us

length-texts : (N : Type 0) (us : List Str) → length (texts N us) ≡ length us
length-texts N [] = refl
length-texts N (u ∷ us) = omega (arith, length-texts N us)

module _ (N : Type 0) ⦃numbers : Number N⦄ where
  contains-texts : (us : List Str) (t : Str) → contains (texts N us) (str t) ≡ includes t us
  unfolding contains includes strict_eq
  contains-texts [] t = refl
  contains-texts (u ∷ us) t = ground (arith, contains-texts us t, str_eq_iff t u, str_eq_iff u t)

  assert_scalars-texts : (us : List Str) → assert_scalars (texts N us) ≡ ok tt
  unfolding assert_scalars
  assert_scalars-texts [] = refl
  assert_scalars-texts (u ∷ us) = assert_scalars-texts us

  assert_in_values-texts :
      (us : List Str) → length us ≤ max_in_values → assert_in_values (texts N us) ≡ ok tt
  unfolding assert_in_values
  assert_in_values-texts us h =
      let few : ltb max_in_values (length (texts N us)) ≡ false =
        ground (arith, length-texts N us) in
      rw (few, assert_in_values) (assert_scalars-texts us)

module _ {N : Type 0} ⦃numbers : Number N⦄ where
  -- The IN test at an edge looks at the field of its end.
  field_in-edge_of :
      (us : List Str) (x : Js N) (e : Edge N)
      → edge_of x ≡ some e
      → (field_in (ascii "from") (texts N us) x ≡ includes e.from us)
        × (field_in (ascii "to") (texts N us) x ≡ includes e.to us)
  unfolding edge_of field_in
  field_in-edge_of us (obj fs) e h =
      let id = text (at (ascii "id") fs) in
      let kind = text (at (ascii "type") fs) in
      let from = text (at (ascii "from") fs) in
      let to = text (at (ascii "to") fs) in
      let (f, t) = with_ends-eq_some id from to kind fs e h in
      (
        ap (contains (texts N us)) (text-eq_some (at (ascii "from") fs) e.from f)
            ∙ contains-texts N us e.from,
        ap (contains (texts N us)) (text-eq_some (at (ascii "to") fs) e.to t)
            ∙ contains-texts N us e.to,
      )
  field_in-edge_of us (str s) e h = absurd (ground (arith, h))
  field_in-edge_of us undefined e h = absurd (ground (arith, h))
  field_in-edge_of us null e h = absurd (ground (arith, h))
  field_in-edge_of us opaque e h = absurd (ground (arith, h))
  field_in-edge_of us (bool b) e h = absurd (ground (arith, h))
  field_in-edge_of us (num n) e h = absurd (ground (arith, h))
  field_in-edge_of us (arr xs) e h = absurd (ground (arith, h))
  field_in-edge_of us (instance_of fs) e h = absurd (ground (arith, h))

  -- Of the edges of a collection, the IN test leaves those with the end.
  Member-edges_in :
      (k : Str) (end_of : Edge N → Str) (us : List Str) (items : List (Js N)) (e : Edge N)
      → ((x : Js N) → edge_of x ≡ some e → field_in k (texts N us) x ≡ includes (end_of e) us)
      → Member e (edges_of (filter (field_in k (texts N us)) items))
        ↔ (Member e (edges_of items) × Member (end_of e) us)
  Member-edges_in k end_of us items e same = (
    λ m.
        let (x, n, h) = (Member-edges_of e (filter (field_in k (texts N us)) items)).0 m in
        let (n', q) = (Member-filter (field_in k (texts N us)) x items).0 n in
        (
          (Member-edges_of e items).1 (x, n', h),
          (includes_iff (end_of e) us).0 (sym (same x h) ∙ q),
        ),
    λ (m, u).
        let (x, n, h) = (Member-edges_of e items).0 m in
        (Member-edges_of e (filter (field_in k (texts N us)) items)).1 (
          x,
          (Member-filter (field_in k (texts N us)) x items).1
              (n, same x h ∙ (includes_iff (end_of e) us).1 u),
          h,
        ),
  )

module _ {N : Type 0} ⦃numbers : Number N⦄ ⦃coercion : Coercion N⦄ where
  abbrev pub edges_in : Store N → Str → Str → List Str → Option (StoreFilter N) → List (Edge N)
  edges_in s c k us f = edges_of (answer (list_where_in c k (texts N us) f s))

  -- The edges that a store lists and finds by IN.
  abbrev pub memory_edges : Store N → EdgeStore N
  memory_edges s = record {
    list = λ c f. edges_of (answer (list c f s));
    list_where_in = some (edges_in s);
    can_traverse = λ c. false;
    traverse_graph = λ c opts. record { nodes = []; edges = [] };
  }

  list-items :
      (c : Str) (s : Store N)
      → is_empty c ≡ false
      → answer (list c none s) ≡ Map.values (collection_of c s)
  unfolding list apply_filter continue
  list-items c s h = rw (ensure_collection_lem c s h) refl

  list_where_in-items :
      (c k u : Str) (us : List Str) (s : Store N)
      → is_empty c ≡ false
      → length (u ∷ us) ≤ max_in_values
      → answer (list_where_in c k (texts N (u ∷ us)) none s)
        ≡ filter (field_in k (texts N (u ∷ us))) (Map.values (collection_of c s))
  unfolding list_where_in apply_filter continue checked assert_conditions
  list_where_in-items c k u us s h few =
      rw (assert_in_values-texts N (u ∷ us) few) (rw (ensure_collection_lem c s h) refl)

  memory_edges-AnswersIn :
      (k : Str) (end_of : Edge N → Str) (c : Str) (s : Store N)
      → is_empty c ≡ false
      → ((us : List Str) (x : Js N) (e : Edge N)
          → edge_of x ≡ some e
          → field_in k (texts N us) x ≡ includes (end_of e) us)
      → AnswersIn (memory_edges s) c none max_in_values (edges_in s) k end_of
  unfolding list_where_in edges_of
  memory_edges-AnswersIn k end_of c s h same [] e few = ground arith
  memory_edges-AnswersIn k end_of c s h same (u ∷ us) e few =
      rw (list-items c s h, list_where_in-items c k u us s h few)
        (Member-edges_in k end_of (u ∷ us) (Map.values (collection_of c s)) e
          (λ x q. same (u ∷ us) x e q))

  -- The queries of the in-memory store find the listed edges by both ends.
  pub memory_edges-from :
      (c : Str) (s : Store N)
      → is_empty c ≡ false
      → AnswersIn (memory_edges s) c none max_in_values (edges_in s) (ascii "from") (λ e. e.from)
  memory_edges-from c s h =
      memory_edges-AnswersIn (ascii "from") (λ e. e.from) c s h
        (λ us x e q. (field_in-edge_of us x e q).0)

  pub memory_edges-to :
      (c : Str) (s : Store N)
      → is_empty c ≡ false
      → AnswersIn (memory_edges s) c none max_in_values (edges_in s) (ascii "to") (λ e. e.to)
  memory_edges-to c s h =
      memory_edges-AnswersIn (ascii "to") (λ e. e.to) c s h
        (λ us x e q. (field_in-edge_of us x e q).1)
