-- ===== src/Atomic/Target/Keys.antt =====
-- Different targets have different keys, whatever units their names hold.
use mirk.Common.{true, ◌↔◌, ◌≡◌, refl, ap, ap₂, [], ◌∷◌, ◌++◌, arith, length, ◌∙◌, sym}
use mathlib.Core.List.{append_assoc}
use mirk.Text.{Str, str_eq}
use mirk.Text.Units.{str_eq_iff}
use mirk.Decimal.{decimal}
use mirk.Decimal.Laws.{decimal-prefix}
use mirk.Atomic.Target.{Target, key, record_of, part, target_key, same_target}

-- Texts of one length, each before some rest.
split_same_length : (a b r s : Str) → length a ≡ length b → a ++ r ≡ b ++ s → (a ≡ b) × (r ≡ s)
split_same_length [] [] r s h e = (refl, e)
split_same_length [] (y ∷ b) r s h e = absurd (omega arith)
split_same_length (x ∷ a) [] r s h e = absurd (omega arith)
split_same_length (x ∷ a) (y ∷ b) r s h e =
    let (p, q) = split_same_length a b r s (omega arith) (cc e) in (cc (e, p), q)

part-prefix : (a b r s : Str) → part a ++ r ≡ part b ++ s → (a ≡ b) × (r ≡ s)
unfolding part
part-prefix a b r s e =
    let (n, rest) = decimal-prefix (length a) (length b) b':' (a ++ r) (b ++ s) (omega arith) (
      sym (append_assoc (decimal (length a)) (b':' ∷ a) r)
      ∙ e
      ∙ append_assoc (decimal (length b)) (b':' ∷ b) s) in
    split_same_length a b r s n rest

part-injective : (a b : Str) → part a ≡ part b → a ≡ b
part-injective a b e = (part-prefix a b [] [] (ap (λ t. t ++ []) e)).0

-- targetKey gives different targets different keys.
pub target_key-injective : (s t : Target) → target_key s ≡ target_key t → s ≡ t
unfolding target_key
target_key-injective (key a) (key b) e = ap key (part-injective a b (cc e))
target_key-injective (key a) (record_of d j) e = absurd (ground arith)
target_key-injective (record_of c i) (key b) e = absurd (ground arith)
target_key-injective (record_of c i) (record_of d j) e =
    let (p, q) = part-prefix c d (b':' ∷ part i) (b':' ∷ part j) (cc e) in
    ap₂ record_of p (part-injective i j (cc q))

pub same_target_iff : (s t : Target) → (same_target s t ≡ true) ↔ (s ≡ t)
unfolding same_target
same_target_iff (key a) (key b) = ground (arith, str_eq_iff a b)
same_target_iff (key a) (record_of d j) = ground arith
same_target_iff (record_of c i) (key b) = ground arith
same_target_iff (record_of c i) (record_of d j) = ground (arith, str_eq_iff c d, str_eq_iff i j)

-- Keys of targets are compared as the targets are.
pub target_key_eq : (s t : Target) → str_eq (target_key s) (target_key t) ≡ same_target s t
target_key_eq s t =
    ground (
      arith,
      same_target_iff s t,
      str_eq_iff (target_key s) (target_key t),
      target_key-injective s t,
    )
