-- ===== src/Js.antt =====
-- JavaScript values, as the stores receive them (packages/store/src). The type of numbers is a
-- parameter, with the operations on it that the program uses; a value is a finite tree.
use mirk.Common.{Bool, true, false, Option, none, some, List, [], ◌∷◌, if◌then◌else◌}
use mirk.Text.{Str, str_eq}

-- The numbers of the language: `Number.isFinite`, `<`, `===`, and the text of a finite number.
pub record Number (N : Type 0) : Type 0 where
  pub is_finite : N → Bool
  pub lt : N → N → Bool
  pub eq : N → N → Bool
  pub text : N → Str

-- `instance` is an object that is not plain, such as a `Date`; `opaque` a function or a symbol.
mutual
  pub data Js (N : Type 0) : Type 0 where
    undefined null opaque : Js N
    bool : Bool → Js N
    num : N → Js N
    str : Str → Js N
    arr : Items N → Js N
    obj : Fields N → Js N
    instance_of : Fields N → Js N

  -- The slots of an array; a sparse array has holes.
  pub data Items (N : Type 0) : Type 0 where
    nil : Items N
    cons : Js N → Items N → Items N
    hole : Items N → Items N

  -- The own enumerable properties of an object, in their order.
  pub data Fields (N : Type 0) : Type 0 where
    end : Fields N
    field : Str → Js N → Fields N → Fields N

module _ {N : Type 0} where
  -- An own property, if the object has it: `k in o`.
  unfoldable pub property : Str → Fields N → Option (Js N)
  property k end = none
  property k (field j v fs) = if str_eq j k then some v else property k fs

  unfoldable pub or_undefined : Option (Js N) → Js N
  or_undefined none = undefined
  or_undefined (some v) = v

  -- `o[k]`
  unfoldable pub at : Str → Fields N → Js N
  at k fs = or_undefined (property k fs)

  unfoldable pub is_undefined : Js N → Bool
  is_undefined undefined = true
  is_undefined _ = false

  -- `Object.entries`
  unfoldable pub entries : Fields N → List (Str × Js N)
  entries end = []
  entries (field k v fs) = (k, v) ∷ entries fs

  unfoldable pub from_entries : List (Str × Js N) → Fields N
  from_entries [] = end
  from_entries ((k, v) ∷ es) = field k v (from_entries es)

  unfoldable pub has_hole : Items N → Bool
  has_hole nil = false
  has_hole (cons v xs) = has_hole xs
  has_hole (hole xs) = true
