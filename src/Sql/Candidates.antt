-- ===== src/Sql/Candidates.antt =====
-- The loop over the candidates for a table ends with a name that is free
-- (packages/store/src/sql.ts).
use mathlib.Core.List.{append_cancel_left}
use mirk.Common.{
  ℕ, zero, suc, ◌+◌, ◌≤◌, ◌<◌, ◌≡◌, ◌≢◌, ◌⊎◌, inl, inr, refl, sym, ap, ◌∙◌, subst, true, false,
  none, some, List, [], ◌∷◌, ◌++◌, map, length, length-append, Member, arith, Option-cases,
  Bool-cases,
}
use mirk.Text.{Str}
use mirk.Text.Units.{str_eq_iff}
use mirk.Decimal.{decimal}
use mirk.Decimal.Laws.{decimal-injective}
use mirk.Graph.Distinct.{remove_first, length-remove_first, Member-remove_first}
use mirk.Sql.Paths.{candidate_table_name}
use mirk.Sql.Tables.{Registration, Registry, claimant, table_exists, next_candidate}

-- Different names that are all in a list are no more than the list is long.
different-fit :
    (name_at : ℕ → Str)
    → ((m n : ℕ) → name_at m ≡ name_at n → m ≡ n)
    → (f a : ℕ) (taken : List Str) → ((i : ℕ) → i < f → Member (name_at (i + a)) taken)
    → f ≤ length taken
different-fit name_at apart zero a taken h = omega arith
different-fit name_at apart (suc f) a taken h =
    let start : 0 + a ≡ a = omega arith in
    let first : Member (name_at a) taken =
      subst (λ k. Member (name_at k) taken) start (h 0 (omega arith)) in
    let rest = different-fit name_at apart f (suc a) (remove_first (name_at a) taken) (λ i lt.
      let e : suc i + a ≡ i + suc a = omega arith in
      let ne : name_at (i + suc a) ≢ name_at a =
        λ p. let q = apart (i + suc a) a p in omega arith in
      Member-remove_first (name_at a) (name_at (i + suc a)) taken ne
        (subst (λ k. Member (name_at k) taken) e (h (suc i) (omega arith)))) in
    omega (arith, length-remove_first (name_at a) taken first)

candidate-injective :
    (legacy : Str) (m n : ℕ)
    → candidate_table_name legacy (2 + m) ≡ candidate_table_name legacy (2 + n)
    → m ≡ n
unfolding candidate_table_name
candidate-injective legacy m n e =
    let suffixed : legacy ++ b'_' ∷ decimal (2 + m) ≡ legacy ++ b'_' ∷ decimal (2 + n) =
      ground (arith, e) in
    let same =
      append_cancel_left legacy (b'_' ∷ decimal (2 + m)) (b'_' ∷ decimal (2 + n)) suffixed in
    omega (arith, decimal-injective (2 + m) (2 + n) (cc same))

abbrev tables_of : List Registration → List Str
tables_of rows = map (λ r. r.table) rows

length-tables_of : (rows : List Registration) → length (tables_of rows) ≡ length rows
length-tables_of [] = refl
length-tables_of (r ∷ rows) = ap suc (length-tables_of rows)

claimant-Member :
    (table : Str) (rows : List Registration)
    → (claimant table rows ≡ none) ⊎ Member table (tables_of rows)
unfolding claimant
claimant-Member table [] = inl refl
claimant-Member table (r ∷ rows) =
    ground (arith, str_eq_iff r.table table, claimant-Member table rows)

table_exists-Member : (table : Str) (ts : List Str) → table_exists table ts ≡ true → Member table ts
unfolding table_exists
table_exists-Member table [] h = cc
table_exists-Member table (t ∷ ts) h =
    ground (arith, str_eq_iff t table, table_exists-Member table ts)

-- The names that a candidate must not have.
abbrev taken_names : Registry → List Str
taken_names registry = tables_of registry.rows ++ registry.tables

Member-append_left : (x : Str) (ys zs : List Str) → Member x ys → Member x (ys ++ zs)
Member-append_left x [] zs m = absurd m
Member-append_left x (y ∷ ys) zs m = ground (arith, Member-append_left x ys zs)

Member-append_right : (x : Str) (ys zs : List Str) → Member x zs → Member x (ys ++ zs)
Member-append_right x [] zs m = m
Member-append_right x (y ∷ ys) zs m = inr (Member-append_right x ys zs m)

-- One round of the loop: the candidate is taken, or it is the answer.
round :
    (f attempt : ℕ) (legacy : Str) (registry : Registry)
    → let candidate = candidate_table_name legacy attempt in
      (Member candidate (taken_names registry)
        × (next_candidate (suc f) attempt legacy registry
            ≡ next_candidate f (attempt + 1) legacy registry))
      ⊎ ((next_candidate (suc f) attempt legacy registry ≡ some candidate)
          × (claimant candidate registry.rows ≡ none)
          × (table_exists candidate registry.tables ≡ false))
unfolding next_candidate
round f attempt legacy registry =
    let candidate = candidate_table_name legacy attempt in
    elim (Option-cases (claimant candidate registry.rows)) [
      | inr (n, e) ↦ inl (
        Member-append_left candidate (tables_of registry.rows) registry.tables
            (elim (claimant-Member candidate registry.rows) [ inl none_claims ↦ cc | inr m ↦ m ]),
        rw (e, next_candidate),
      )
      | inl e ↦ elim (Bool-cases (table_exists candidate registry.tables)) [
        | inl there ↦ inl (
          Member-append_right candidate (tables_of registry.rows) registry.tables
              (table_exists-Member candidate registry.tables there),
          rw (e, next_candidate) (rw (there, next_candidate)),
        )
        | inr free ↦ inr (rw (e, next_candidate) (rw (free, next_candidate)), e, free)
      ]
    ]

-- While there is no answer every candidate so far is taken.
all_taken :
    (f a : ℕ) (legacy : Str) (registry : Registry)
    → next_candidate f (2 + a) legacy registry ≡ none
    → (i : ℕ) → i < f
    → Member (candidate_table_name legacy (2 + (i + a))) (taken_names registry)
all_taken zero a legacy registry h i lt = absurd (omega arith)
all_taken (suc f) a legacy registry h i lt = elim (round f (2 + a) legacy registry) [
  | inr (e, c, free) ↦ cc
  | inl (m, e) ↦
      let next : 2 + a + 1 ≡ 2 + suc a = omega arith in
      let rest : next_candidate f (2 + suc a) legacy registry ≡ none =
        ap (λ k. next_candidate f k legacy registry) (sym next) ∙ sym e ∙ h in
      elim i
          as (λ i.
            i < suc f → Member (candidate_table_name legacy (2 + (i + a))) (taken_names registry)) [
              | zero ↦ λ l.
                  let z : a ≡ zero + a = omega arith in
                  subst (λ k. Member (candidate_table_name legacy (2 + k)) (taken_names registry)) z
                    m
              | suc j ↦ λ l.
                  let z : j + suc a ≡ suc j + a = omega arith in
                  subst (λ k. Member (candidate_table_name legacy (2 + k)) (taken_names registry)) z
                    (all_taken f (suc a) legacy registry rest j (omega arith))
            ]
        lt
]

-- One round more than there are names taken is enough.
pub next_candidate-found :
    (f : ℕ) (legacy : Str) (registry : Registry)
    → length registry.rows + length registry.tables < f
    → next_candidate f 2 legacy registry ≢ none
next_candidate-found f legacy registry enough h =
    let few =
      different-fit (λ i. candidate_table_name legacy (2 + i)) (candidate-injective legacy) f 0
        (taken_names registry) (all_taken f 0 legacy registry h) in
    omega (
      arith,
      length-append (tables_of registry.rows) registry.tables,
      length-tables_of registry.rows,
    )

-- What is found is claimed by no name, and is no table yet.
pub next_candidate-free :
    (f attempt : ℕ) (legacy candidate : Str) (registry : Registry)
    → next_candidate f attempt legacy registry ≡ some candidate
    → (claimant candidate registry.rows ≡ none) × (table_exists candidate registry.tables ≡ false)
next_candidate-free zero attempt legacy candidate registry h = unfold next_candidate in cc
next_candidate-free (suc f) attempt legacy candidate registry h =
    elim (round f attempt legacy registry) [
      | inl (m, e) ↦ next_candidate-free f (attempt + 1) legacy candidate registry (sym e ∙ h)
      | inr (e, c, free) ↦
          let same : candidate_table_name legacy attempt ≡ candidate = ground (arith, e) in
          subst (λ t. (claimant t registry.rows ≡ none) × (table_exists t registry.tables ≡ false))
            same (c, free)
    ]
