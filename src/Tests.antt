-- ===== src/Tests.antt =====
-- Runs of the stores on small inputs, and the theorems at inputs on which their hypotheses hold.
pub mod Queries
pub mod Graphs
pub mod Names
pub mod Statements
pub mod Indexes
pub mod Fixtures
use mathlib.Core.List.{Perm}
use mirk.Common.{
  ◌<◌, ℕ, ◌≡◌, ◌↔◌, arith, refl, ap, subst, true, false, none, some, List, [], ◌∷◌, Ordering, ltb,
  ◌==◌, All, length, filter,
}
use mirk.Common.Result.{ok}
use mirk.Text.{Str, ascii, str_eq, compare_list, code_points, compare_code_points}
use mirk.Map
use mirk.Sort.{insert, sort}
use mirk.Filter.{Coercion}
use mirk.Decimal.{decimal, decimal_from}
use mirk.Js.{at, or_undefined, property, is_undefined, from_entries, has_hole}
use mirk.Canonical.{
  canonical_json, canonical_value, array_text, object_text, member_text, join_comma, sequence,
  quote, clone_json, clone_fields, clone_object,
}
use mirk.Atomic.Encode.{digest_input, target_js, with_idempotency}
use mirk.Atomic.Normalize.{
  count_slots, has_repeat, seen_before, json_safe, text_of, normalize_all, normalize_condition,
  normalize_operation, target_from,
}
use mirk.Atomic.Shape.{item_id, operation_target}
use mirk.Atomic.Target.{compare_targets, part, target_key, is_named}
use mirk.Atomic.Validate.{
  check_operation_limit, check_condition_limit, read_conditions, read_operations, read_idempotency,
  read_outcome,
}
use mirk.Js.{Number, Js, str, num, obj, arr, Fields, nil, cons, end, field}
use mirk.Atomic.Limits.{in_process_atomic_limits, is_receipt_expired}
use mirk.Atomic.Shape.{Validated, Operation, present}
use mirk.Atomic.Target.{key, record_of}
use Prim.Native.String.{String}
use mirk.Atomic.Validate.{validate_atomic_request}
use mirk.Memory.State.{Store, Completed, Receipt, new_store, stamp, continue, version_token}
use mirk.Memory.Values.{
  set, has, delete, put, remove, keys, ensure_collection, store_collection, starts_with,
}
use mirk.Memory.Mutate.{
  applied, replayed, mutate_atomically, run_validated, run_with, decide, check_conditions,
  get_versioned, lookup_target, versioned, condition_matches, commit, apply_operations,
  apply_operation, completed, replay,
}
use mirk.Text.Units.{compare_code_points-eq_iff}
use mirk.Sort.Laws.{IsSorted}
use mirk.Sha256.Shape.{IsHexDigit, sha256_hex-IsHexDigit}
use mirk.Atomic.Normal.{IsNormal, validate_atomic_request-IsNormal}
use mirk.Atomic.Target.Keys.{target_key-injective}
use mirk.Memory.Listing.{prefix_of, keys-IsSorted}
use mirk.Memory.Update.{IsTracked, Update, Update-IsTracked}
use mirk.Memory.Operations.{set-Update, put-Update, remove-Update}
use mirk.Memory.Conditions.{seen, prepared, get_versioned_lem}
use mirk.Memory.Outcome.{SameValues}
use mirk.Memory.Atomicity.{Answered, mutate_atomically-Answered}
use mirk.Memory.Reach.{
  Reach, start, next, set_step, mutate_step, new_store-IsTracked, Reach-IsTracked,
}
use mirk.Memory.Holds.{Holds, check_conditions-Holds}
use mirk.Coordination.{
  Tables, no_leases, write, next_generation, try_acquire, renew, release, is_owned,
}
use mirk.Coordination.Fencing.{stay, try_acquire-later}
use mirk.Coordination.Exclusion.{try_acquire-none_iff, try_acquire-grants, renew-release-stale}
use mirk.Memory.Replay.{read_receipt-prune, mutate_atomically-replayed}
use mirk.Memory.Receipts.{prune_receipt_batch, prune_front, read_receipt, write_receipt}
use mirk.Sha256.{sha256_hex, sha256_hex_bytes, utf8}

unfoldable pub program : Unit {0}
unfolding insert sort decimal decimal_from at or_undefined property is_undefined from_entries
    has_hole canonical_json canonical_value array_text object_text member_text join_comma sequence
    quote clone_json clone_fields clone_object digest_input target_js with_idempotency count_slots
    has_repeat seen_before json_safe text_of normalize_all normalize_condition normalize_operation
    target_from item_id operation_target compare_targets part target_key check_operation_limit
    check_condition_limit read_conditions read_operations read_idempotency read_outcome
    validate_atomic_request str_eq compare_list code_points compare_code_points utf8 new_store set
    stamp mutate_atomically run_validated run_with prune_receipt_batch prune_front read_receipt
    decide check_conditions get_versioned lookup_target versioned condition_matches continue commit
    apply_operations apply_operation put ensure_collection store_collection Map.get Map.set
    Map.remove completed write_receipt is_receipt_expired version_token delete remove keys
    starts_with filter replay has Map.keys
program = tt

instance abbrev pub nat_number : Number ℕ
nat_number = record { is_finite = λ n. true; lt = ltb; eq = λ m n. m == n; text = decimal }

-- Values of other kinds are never less.
instance abbrev pub never_less : Coercion ℕ
never_less = record { converted_lt = λ a b. false }

abbrev pub empty_store : Store ℕ
empty_store = new_store in_process_atomic_limits (some 1000) (ascii "m1")

abbrev pub one_key : Store ℕ
one_key = set (ascii "a") (num 5) empty_store

abbrev pub text : String → Js ℕ
text s = str (ascii s)

abbrev pub key_target : String → Js ℕ
key_target k = obj (field (ascii "kind") (text "key") (field (ascii "key") (text k) end))

abbrev present_condition : Js ℕ
present_condition =
    obj (field (ascii "target") (key_target "a") (field (ascii "expected") (text "present") end))

abbrev pub set_operation : Js ℕ
set_operation = obj (
    field (ascii "op") (text "set")
      (field (ascii "key") (text "b") (field (ascii "value") (num 7) end)))

abbrev put_operation : Js ℕ
put_operation = obj (
    field (ascii "op") (text "put") (
      field (ascii "collection") (text "c")
        (field (ascii "item") (obj (field (ascii "id") (text "x") end)) end)))

-- Set a key and put a record, if the key `a` is there, under the idempotency key `k`.
abbrev pub keyed_request : Js ℕ
keyed_request = obj (
    field (ascii "conditions") (arr (cons present_condition nil)) (
      field (ascii "operations") (arr (cons set_operation (cons put_operation nil)))
        (field (ascii "idempotency") (obj (field (ascii "key") (text "k") end)) end)))

-- What the digest of the request is taken of.
abbrev pub encoded : Str
encoded =
    ascii
      "{\"conditions\":[{\"expected\":\"present\",\"target\":{\"key\":\"a\",\"kind\":\"key\"}}],\"operations\":[{\"key\":\"b\",\"op\":\"set\",\"value\":7},{\"collection\":\"c\",\"item\":{\"id\":\"x\"},\"op\":\"put\"}],\"schema\":\"mirk-atomic-request/v1\"}"

abbrev pub item : Fields ℕ
item = field (ascii "id") (text "x") end

abbrev validated : Validated ℕ
validated = record {
  conditions = record { target = key (ascii "a"); expected = present } ∷ [];
  operations = Operation.set (ascii "b") (num 7) ∷ Operation.put (ascii "c") item ∷ [];
  idempotency = some (record { key = ascii "k"; outcome = none });
  request_digest = sha256_hex encoded;
}

abbrev first_result : Completed ℕ
first_result = record {
  request_digest = sha256_hex encoded;
  versions =
      (key (ascii "b"), some (ascii "m1-v2"))
      ∷ (record_of (ascii "c") (ascii "x"), some (ascii "m1-v3"))
      ∷ [];
  outcome = none;
}

abbrev pub after_first : Store ℕ
after_first = record one_key {
  kv = (ascii "a", num 5) ∷ (ascii "b", num 7) ∷ [];
  collections = (ascii "c", (ascii "x", obj item) ∷ []) ∷ [];
  versions =
      (ascii "k:1:a", ascii "m1-v1")
      ∷ (ascii "k:1:b", ascii "m1-v2")
      ∷ (ascii "r:1:c:1:x", ascii "m1-v3")
      ∷ [];
  next_version_number = 4;
  receipts =
      (
        ascii "k",
        record { request_digest = sha256_hex encoded; result = first_result; created_at = 5 },
      )
      ∷ [];
}

validation : validate_atomic_request keyed_request in_process_atomic_limits ≡ ok validated
unfolding program
validation = refl

first_run : mutate_atomically keyed_request 5 one_key ≡ (ok (applied first_result), after_first)
unfolding program
first_run = refl

digest :
    sha256_hex (ascii "abc")
    ≡ ascii "ba7816bf8f01cfea414140de5dae2223b00361a396177a9cb410ff61f20015ad"
unfolding sha256_hex code_points sha256_hex_bytes utf8
digest = refl

-- A pair of surrogates comes after every unit of the basic plane, though its first unit is smaller.
order : compare_code_points (0xD83D ∷ 0xDE00 ∷ []) (0xFF5E ∷ []) ≡ Ordering.gt
unfolding compare_code_points str_eq compare_list code_points
order = refl

two_keys : keys none after_first ≡ ascii "a" ∷ ascii "b" ∷ []
unfolding program
two_keys = refl

one_key-Reach : Reach one_key
one_key-Reach =
    next (start in_process_atomic_limits (some 1000) (ascii "m1")) (set_step (ascii "a") (num 5))

abbrev pub one_key_tracked : IsTracked one_key
one_key_tracked =
    Update-IsTracked (set-Update (ascii "a") (num 5) empty_store)
      (new_store-IsTracked in_process_atomic_limits (some 1000) (ascii "m1"))

mutate_atomically-Answered_example :
    Answered keyed_request one_key (mutate_atomically keyed_request 5 one_key)
mutate_atomically-Answered_example =
    mutate_atomically-Answered keyed_request 5 one_key one_key_tracked

Reach-IsTracked_example : IsTracked one_key
Reach-IsTracked_example = Reach-IsTracked one_key-Reach

not_expired : is_receipt_expired (some 5) 900 (some 1000) ≡ false
unfolding is_receipt_expired
not_expired = refl

mutate_atomically-replayed_example :
    (d : Completed ℕ) × (mutate_atomically keyed_request 900 after_first
      ≡ (ok (replayed d), prune_receipt_batch 900 after_first))
    × (d.request_digest ≡ first_result.request_digest)
    × (d.versions ≡ first_result.versions)
    × SameValues after_first (prune_receipt_batch 900 after_first)
unfolding set stamp new_store
mutate_atomically-replayed_example =
    mutate_atomically-replayed keyed_request validated (record { key = ascii "k"; outcome = none })
      5 900 one_key after_first first_result one_key_tracked validation refl first_run not_expired

validate_atomic_request-IsNormal_example : IsNormal in_process_atomic_limits validated
validate_atomic_request-IsNormal_example =
    validate_atomic_request-IsNormal keyed_request in_process_atomic_limits validated validation

get_versioned_lem_example :
    get_versioned (key (ascii "a")) one_key
    ≡ (ok (seen one_key (key (ascii "a"))), prepared (key (ascii "a")) one_key)
unfolding is_named
get_versioned_lem_example = get_versioned_lem (key (ascii "a")) one_key refl one_key_tracked

put-Update_example :
    Update
      (record_of (ascii "c") (item_id item))
      (some (obj item))
      one_key
      (put (ascii "c") item one_key).1
put-Update_example = put-Update (ascii "c") item one_key refl

first_run_tracked : IsTracked after_first
first_run_tracked =
    subst IsTracked (ap (λ r. r.1) first_run)
      (Reach-IsTracked (next one_key-Reach (mutate_step keyed_request 5)))

remove-Update_example :
    Update
      (record_of (ascii "c") (ascii "x"))
      none
      after_first
      (remove (ascii "c") (ascii "x") after_first).1
remove-Update_example = remove-Update (ascii "c") (ascii "x") after_first refl first_run_tracked

keys-IsSorted_example :
    IsSorted compare_code_points (keys (some (ascii "b")) after_first)
    × Perm
        (keys (some (ascii "b")) after_first)
        (filter (λ k. starts_with (prefix_of (some (ascii "b"))) k) (Map.keys after_first.kv))
keys-IsSorted_example = keys-IsSorted (some (ascii "b")) after_first

abbrev first_receipt : Receipt ℕ
first_receipt = record {
  request_digest = sha256_hex encoded;
  result = first_result;
  created_at = 5;
}

receipt_found : Map.get (ascii "k") after_first.receipts ≡ some first_receipt
unfolding program
receipt_found = refl

read_receipt-prune_example :
    read_receipt (ascii "k") 900 (prune_receipt_batch 900 after_first) ≡ some first_receipt
unfolding set stamp new_store
read_receipt-prune_example =
    read_receipt-prune (ascii "k") first_receipt 900 after_first receipt_found not_expired

target_key-injective_example : key (ascii "a") ≡ key (ascii "a")
target_key-injective_example = target_key-injective (key (ascii "a")) (key (ascii "a")) refl

abbrev face : Str
face = 0xD83D ∷ 0xDE00 ∷ []

compare_code_points-eq_iff_example :
    (compare_code_points face (ascii "a") ≡ Ordering.eq) ↔ (face ≡ ascii "a")
compare_code_points-eq_iff_example =
    compare_code_points-eq_iff face (ascii "a") (omega arith, (omega arith, tt)) (omega arith, tt)

a_before_b : compare_code_points (ascii "a") (ascii "b") ≡ Ordering.lt
unfolding program
a_before_b = refl

b_before_face : compare_code_points (ascii "b") face ≡ Ordering.lt
unfolding program
b_before_face = refl

sha256_hex-IsHexDigit_example :
    (length (sha256_hex (ascii "abc")) ≡ 64) × All IsHexDigit (sha256_hex (ascii "abc"))
sha256_hex-IsHexDigit_example = sha256_hex-IsHexDigit (ascii "abc")

check_conditions-Holds_example :
    ((check_conditions validated.conditions one_key).0 ≡ ok none)
    ↔ All (Holds one_key) validated.conditions
unfolding is_named
check_conditions-Holds_example =
    check_conditions-Holds validated.conditions one_key (refl, tt) one_key_tracked

-- The first process takes the key at 10 for 5 milliseconds, the second at 15.
abbrev acquired : Tables
acquired = (try_acquire (ascii "n") (ascii "k") (ascii "p") 5 10 no_leases).1

leases : Unit {0}
unfolding program try_acquire next_generation write no_leases is_owned renew release
leases = tt

first_grant : (try_acquire (ascii "n") (ascii "k") (ascii "p") 5 10 no_leases).0 ≡ some 1
unfolding leases
first_grant = refl

second_grant : (try_acquire (ascii "n") (ascii "k") (ascii "q") 5 15 acquired).0 ≡ some 2
unfolding leases
second_grant = refl

refused_grant : (try_acquire (ascii "n") (ascii "k") (ascii "q") 5 14 acquired).0 ≡ none
unfolding leases
refused_grant = refl

first_owned : is_owned (ascii "n") (ascii "k") (ascii "p") 1 14 acquired ≡ true
unfolding leases
first_owned = refl

abbrev taken_over : Tables
taken_over = (try_acquire (ascii "n") (ascii "k") (ascii "q") 5 15 acquired).1

second_owned : is_owned (ascii "n") (ascii "k") (ascii "q") 2 16 taken_over ≡ true
unfolding leases
second_owned = refl

try_acquire-later_example : 1 < 2
try_acquire-later_example =
    try_acquire-later (ascii "n") (ascii "k") (ascii "p") (ascii "q") 5 10 5 15 1 2 no_leases
      acquired first_grant stay second_grant

try_acquire-grants_example : is_owned (ascii "n") (ascii "k") (ascii "p") 1 14 acquired ≡ true
try_acquire-grants_example =
    try_acquire-grants (ascii "n") (ascii "k") (ascii "p") 1 5 10 14 no_leases first_grant
      (omega arith)

renew-release-stale_example :
    (renew (ascii "n") (ascii "k") (ascii "p") 1 5 16 taken_over ≡ (false, taken_over))
    × (release (ascii "n") (ascii "k") (ascii "p") 1 16 taken_over ≡ (false, taken_over))
renew-release-stale_example =
    renew-release-stale (ascii "n") (ascii "k") (ascii "p") (ascii "q") 1 2 5 16 taken_over
      second_owned (omega arith)

try_acquire-none_iff_example :
    ((try_acquire (ascii "n") (ascii "k") (ascii "q") 5 14 acquired).0 ≡ none)
    ↔ ((o : Str) × (g : ℕ) × (is_owned (ascii "n") (ascii "k") o g 14 acquired ≡ true))
try_acquire-none_iff_example =
    try_acquire-none_iff (ascii "n") (ascii "k") (ascii "q") 5 14 acquired
