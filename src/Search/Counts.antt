-- ===== src/Search/Counts.antt =====
-- Counts by term, and sums over the entries of a map (packages/store/src/search/memory.ts).
use mirk.Common.{
  ℕ, ◌+◌, ◌-◌, ◌≡◌, refl, ap, sym, ◌∙◌, Bool, true, false, ◌&&◌, ◌||◌, not, none, some, List, [],
  ◌∷◌, ◌++◌, arith, inl, inr, Bool-cases,
}
use mirk.Text.{Str, str_eq}
use mirk.Text.Units.{str_eq_iff}
use mirk.Map
use mirk.Map.{Map}
use mirk.Map.Laws.{get-set, get-remove}
use mirk.Graph.{includes}
use mirk.Graph.Distinct.{NoRepeat, NoRepeat-append_last}
use mirk.Search.{or_zero, raise, lower, raise_all, lower_all, add_term, add_terms}

abbrev pub count_of : Str → Map ℕ → ℕ
count_of t counts = or_zero (Map.get t counts)

abbrev pub one_if : Bool → ℕ
one_if true = 1
one_if false = 0

count_of-raise :
    (t u : Str) (counts : Map ℕ)
    → count_of u (raise t counts) ≡ count_of u counts + one_if (str_eq t u)
unfolding raise
count_of-raise t u counts = elim (Bool-cases (str_eq t u)) [
  | inl e ↦ ground (
    arith,
    ap or_zero (get-set t u (count_of t counts + 1) counts),
    ap (λ k. count_of k counts) ((str_eq_iff t u).0 e),
  )
  | inr e ↦ ground (arith, ap or_zero (get-set t u (count_of t counts + 1) counts))
]

count_of-lower :
    (t u : Str) (counts : Map ℕ)
    → count_of u (lower t counts) ≡ count_of u counts - one_if (str_eq t u)
unfolding lower
count_of-lower t u counts =
    let put = ap or_zero (get-set t u (count_of t counts - 1) counts) in
    let gone = ap or_zero (get-remove t u counts) in
    elim (Bool-cases (str_eq t u)) [
      | inl e ↦ ground (arith, put, gone, ap (λ k. count_of k counts) ((str_eq_iff t u).0 e))
      | inr e ↦ ground (arith, put, gone)
    ]

pub count_of-raise_all :
    (ts : List Str) (u : Str) (counts : Map ℕ)
    → NoRepeat ts
    → count_of u (raise_all ts counts) ≡ count_of u counts + one_if (includes u ts)
unfolding raise_all includes
count_of-raise_all [] u counts h = omega arith
count_of-raise_all (t ∷ ts) u counts h = ground (
  arith,
  count_of-raise_all ts u (raise t counts) h.1,
  count_of-raise t u counts,
  str_eq_iff t u,
  ap (λ k. includes k ts),
  h.0,
)

pub count_of-lower_all :
    (ts : List Str) (u : Str) (counts : Map ℕ)
    → NoRepeat ts
    → count_of u (lower_all ts counts) ≡ count_of u counts - one_if (includes u ts)
unfolding lower_all includes
count_of-lower_all [] u counts h = omega arith
count_of-lower_all (t ∷ ts) u counts h = ground (
  arith,
  count_of-lower_all ts u (lower t counts) h.1,
  count_of-lower t u counts,
  str_eq_iff t u,
  ap (λ k. includes k ts),
  h.0,
)

pub add_terms-NoRepeat :
    (tokens terms : List Str) → NoRepeat terms → NoRepeat (add_terms tokens terms)
unfolding add_terms add_term
add_terms-NoRepeat [] terms h = h
add_terms-NoRepeat (t ∷ tokens) terms h = elim (Bool-cases (includes t terms)) [
  | inl e ↦ rw (e, add_terms) (add_terms-NoRepeat tokens terms h)
  | inr e ↦
      rw (e, add_terms)
        (add_terms-NoRepeat tokens (terms ++ t ∷ []) (NoRepeat-append_last t terms e h))
]

module _ {V : Type 0} where
  -- The sum of a number of every entry.
  abbrev pub weigh : (V → ℕ) → Map V → ℕ
  weigh f [] = 0
  weigh f ((k, v) ∷ m) = f v + weigh f m

  abbrev pub names_of : Map V → List Str
  names_of [] = []
  names_of ((k, v) ∷ m) = k ∷ names_of m

  remove-absent : (k : Str) (m : Map V) → includes k (names_of m) ≡ false → Map.remove k m ≡ m
  unfolding Map.remove includes
  remove-absent k [] h = refl
  remove-absent k ((j, v) ∷ m) h = ground (arith, remove-absent k m)

  includes-remove :
      (k i : Str) (m : Map V)
      → includes i (names_of (Map.remove k m)) ≡ (includes i (names_of m) && not (str_eq k i))
  unfolding Map.remove includes
  includes-remove k i [] = refl
  includes-remove k i ((j, v) ∷ m) =
      ground (arith, includes-remove k i m, str_eq_iff j k, str_eq_iff j i, str_eq_iff k i)

  pub remove-NoRepeat :
      (k : Str) (m : Map V) → NoRepeat (names_of m) → NoRepeat (names_of (Map.remove k m))
  unfolding Map.remove
  remove-NoRepeat k [] h = tt
  remove-NoRepeat k ((j, v) ∷ m) h = elim (Bool-cases (str_eq j k)) [
    | inl e ↦ rw (e, Map.remove) (remove-NoRepeat k m h.1)
    | inr e ↦ rw (e, Map.remove) (ground (arith, includes-remove k j m), remove-NoRepeat k m h.1)
  ]

  includes-set :
      (k i : Str) (v : V) (m : Map V)
      → includes i (names_of (Map.set k v m)) ≡ (includes i (names_of m) || str_eq k i)
  unfolding Map.set includes
  includes-set k i v [] = ground arith
  includes-set k i v ((j, w) ∷ m) =
      ground (arith, includes-set k i v m, str_eq_iff j k, str_eq_iff j i, str_eq_iff k i)

  pub set-NoRepeat :
      (k : Str) (v : V) (m : Map V) → NoRepeat (names_of m) → NoRepeat (names_of (Map.set k v m))
  unfolding Map.set
  set-NoRepeat k v [] h = (unfold includes in refl, tt)
  set-NoRepeat k v ((j, w) ∷ m) h = elim (Bool-cases (str_eq j k)) [
    | inl e ↦
        rw (e, Map.set)
          (ground (arith, ap (λ i. includes i (names_of m)) ((str_eq_iff j k).0 e)), h.1)
    | inr e ↦
        rw (e, Map.set)
          (
            ground (arith, includes-set k j v m, str_eq_iff k j, str_eq_iff j k),
            set-NoRepeat k v m h.1,
          )
  ]

  -- A new key adds its number.
  pub weigh-set :
      (f : V → ℕ) (k : Str) (v : V) (m : Map V)
      → Map.get k m ≡ none
      → weigh f (Map.set k v m) ≡ weigh f m + f v
  unfolding Map.get Map.set
  weigh-set f k v [] h = omega arith
  weigh-set f k v ((j, w) ∷ m) h = ground (arith, weigh-set f k v m)

  -- A key that goes takes its number away.
  pub weigh-remove :
      (f : V → ℕ) (k : Str) (v : V) (m : Map V)
      → NoRepeat (names_of m)
      → Map.get k m ≡ some v
      → weigh f m ≡ weigh f (Map.remove k m) + f v
  unfolding Map.get Map.remove
  weigh-remove f k v [] h e = cc
  weigh-remove f k v ((j, w) ∷ m) h e = elim (Bool-cases (str_eq j k)) [
    | inl s ↦
        let absent : includes k (names_of m) ≡ false =
          ap (λ i. includes i (names_of m)) (sym ((str_eq_iff j k).0 s)) ∙ h.0 in
        let same : w ≡ v = ground arith in ground (arith, remove-absent k m absent, ap f same)
    | inr s ↦ ground (arith, weigh-remove f k v m h.1)
  ]
