-- ===== src/Sql/Closed.antt =====
-- SQL texts that close their literals, with the placeholders outside them counted
-- (packages/store/src/sql.ts).
use mirk.Common.{
  ℕ, suc, ◌+◌, ◌≡◌, refl, sym, ◌∙◌, subst, Bool, true, false, ◌&&◌, not, List, [], ◌∷◌, ◌++◌, ◌==◌,
  arith, if◌then◌else◌,
}
use mirk.Text.{Str}
use mirk.Sql.Paths.{double_quotes, sql_literal}
use mirk.Sql.Clauses.{join}

-- The question marks outside the literals of a text; `inside` tells whether it starts in a literal.
unfoldable pub placeholders_from : Bool → Str → ℕ
placeholders_from inside [] = 0
placeholders_from inside (u ∷ s) =
    let out = placeholders_from (not inside) s in
    let on = placeholders_from inside s in
    if u == b'\'' then out else if u == b'?' && not inside then suc on else on

-- Whether the text ends in a literal.
unfoldable pub ends_inside : Bool → Str → Bool
ends_inside inside [] = inside
ends_inside inside (u ∷ s) =
    let out = ends_inside (not inside) s in
    let on = ends_inside inside s in if u == b'\'' then out else on

abbrev pub placeholders : Str → ℕ
placeholders = placeholders_from false

-- A text that closes its literals and has `n` placeholders.
pub record Closed (n : ℕ) (s : Str) : Type 0 where
  pub count : placeholders s ≡ n
  pub shut : ends_inside false s ≡ false

placeholders-append :
    (b : Bool) (s t : Str)
    → (placeholders_from b (s ++ t) ≡ placeholders_from b s + placeholders_from (ends_inside b s) t)
      × (ends_inside b (s ++ t) ≡ ends_inside (ends_inside b s) t)
unfolding placeholders_from ends_inside
placeholders-append b [] t = ground arith
placeholders-append b (u ∷ s) t =
    ground (arith, placeholders-append b s t, placeholders-append (not b) s t)

pub Closed-append : {m n : ℕ} {s t : Str} → Closed m s → Closed n t → Closed (m + n) (s ++ t)
Closed-append {s = s} {t = t} a b =
    let (c, e) = placeholders-append false s t in
    record {
      count = c ∙ ground (arith, a.count, a.shut, b.count);
      shut = e ∙ ground (arith, a.shut, b.shut);
    }

-- A text that is written out.
pub written : {n : ℕ} (s : Str) → placeholders s ≡ n → ends_inside false s ≡ false → Closed n s
written s c e = record { count = c; shut = e }

pub plain : {m : ℕ} {s t : Str} → Closed 0 s → Closed m t → Closed m (s ++ t)
plain a b = let c = Closed-append a b in record { count = c.count ∙ ground arith; shut = c.shut }

double_quotes-inside :
    (s : Str)
    → (placeholders_from true (double_quotes s) ≡ 0) × (ends_inside true (double_quotes s) ≡ true)
unfolding placeholders_from ends_inside double_quotes
double_quotes-inside [] = ground arith
double_quotes-inside (u ∷ s) = ground (arith, double_quotes-inside s)

-- Whatever a literal holds, it is no placeholder, and it ends where it is closed.
pub sql_literal-Closed : (s : Str) → Closed 0 (sql_literal s)
unfolding sql_literal placeholders_from ends_inside
sql_literal-Closed s =
    let (c, e) = placeholders-append true (double_quotes s) (b'\'' ∷ []) in
    let (n, i) = double_quotes-inside s in
    record { count = c ∙ ground (arith, n, i); shut = e ∙ ground (arith, i) }

-- The texts close their literals, and have `n` placeholders together.
unfoldable pub AllClosed : ℕ → List Str → Type 0
AllClosed n [] = n ≡ 0
AllClosed n (t ∷ ts) = (a : ℕ) × (b : ℕ) × Closed a t × AllClosed b ts × (n ≡ a + b)

pub AllClosed-append :
    (m n : ℕ) (ts us : List Str) → AllClosed m ts → AllClosed n us → AllClosed (m + n) (ts ++ us)
unfolding AllClosed
AllClosed-append m n [] us h g = let e : n ≡ m + n = omega arith in subst (λ k. AllClosed k us) e g
AllClosed-append m n (t ∷ ts) us (a, b, c, h, e) g =
    (a, b + n, c, AllClosed-append b n ts us h g, omega arith)

pub join-Closed :
    (separator : Str) (n : ℕ) (ts : List Str)
    → Closed 0 separator
    → AllClosed n ts
    → Closed n (join separator ts)
unfolding join AllClosed placeholders_from ends_inside
join-Closed separator n [] c h = record { count = ground arith; shut = refl }
join-Closed separator n (t ∷ []) c (a, b, d, h, e) = record {
  count = ground (arith, d.count);
  shut = d.shut;
}
join-Closed separator n (t ∷ u ∷ ts) c (a, b, d, h, e) =
    let r = Closed-append d (plain c (join-Closed separator b (u ∷ ts) c h)) in
    record { count = r.count ∙ sym e; shut = r.shut }

pub alone : {n : ℕ} {t : Str} → Closed n t → AllClosed n (t ∷ [])
unfolding AllClosed
alone {n} c = (n, 0, c, refl, omega arith)
