-- ===== src/Tests/Names.antt =====
-- The theorems on namespaces at two namespaces over a store with one key.
use mirk.Common.{ℕ, ◌≡◌, ◌≢◌, refl, none, List, [], ◌∷◌, ◌++◌, inl, arith}
use mirk.Common.Result.{ok, err}
use mirk.Text.{Str, ascii}
use mirk.Js.{Js, num, str, obj, arr, field, end, cons, nil}
use mirk.Atomic.Limits.{in_process_atomic_limits}
use mirk.Atomic.Shape.{Condition, Operation, version, invalid_request, Validated}
use mirk.Atomic.Target.{key}
use mirk.Atomic.Validate.{validate_atomic_request}
use mirk.Sha256.{sha256_hex}
use mirk.Memory.State.{rejected}
use mirk.Memory.Values.{starts_with}
use mirk.Memory.View.{read, version_at}
use mirk.Namespace.Binding.{
  assert_namespace, has_unit, prefix, bind_target, bind_version, bind_expected, bind_condition,
  unbind_condition,
}
use mirk.Namespace.Names.{unbind_condition-bind_condition}
use mirk.Namespace.Store.{
  in_memory, in_memory_atomic, namespaced, namespaced_mutate, namespace_store,
}
use mirk.Namespace.Apart.{
  Call, set_call, delete_call, mutate_call, run_calls, namespace_store-isolated,
}
use mirk.Namespace.Foreign.{namespaced_mutate-foreign}
use mirk.Tests.{
  nat_number, never_less, one_key, one_key_tracked, key_target, set_operation, keyed_request, text,
  program,
}

-- A token of the namespace `x`.
abbrev x_token : Str
x_token = ascii "x" ++ 0 ∷ ascii "t"

abbrev x_condition : Condition
x_condition = record { target = key (ascii "a"); expected = version x_token }

abbrev x_bound : Condition
x_bound = record { target = key (ascii "x" ++ 0x1F ∷ ascii "a"); expected = version (ascii "t") }

bound_run : bind_condition (ascii "x") x_condition ≡ ok x_bound
unfolding bind_condition bind_expected bind_target prefix starts_with
bound_run = refl

unbind_condition-bind_condition_example : unbind_condition (ascii "x") x_bound ≡ x_condition
unbind_condition-bind_condition_example =
    unbind_condition-bind_condition (ascii "x") x_condition x_bound bound_run

x_apart : ascii "x" ≢ ascii "y"
x_apart e = absurd (ground arith)

abbrev x_calls : List (Call ℕ)
x_calls = set_call (ascii "a") (num 1) ∷ mutate_call keyed_request 5 ∷ delete_call (ascii "b") ∷ []

namespace_store-isolated_example :
    (read
        (bind_target (ascii "y") (key (ascii "a")))
        (run_calls (namespaced (ascii "x") in_memory) x_calls one_key)
      ≡ read (bind_target (ascii "y") (key (ascii "a"))) one_key)
    × (version_at
          (bind_target (ascii "y") (key (ascii "a")))
          (run_calls (namespaced (ascii "x") in_memory) x_calls one_key)
        ≡ version_at (bind_target (ascii "y") (key (ascii "a"))) one_key)
unfolding namespace_store assert_namespace has_unit
namespace_store-isolated_example =
    namespace_store-isolated (ascii "x") (ascii "y") (namespaced (ascii "x") in_memory) x_calls
      one_key (key (ascii "a")) refl refl x_apart one_key_tracked

abbrev y_request : Js ℕ
y_request = obj (
    field (ascii "conditions")
      (arr (
        cons
          (obj (
            field (ascii "target") (key_target "a") (
              field (ascii "expected") (text "version")
                (field (ascii "version") (str x_token) end))))
          nil))
      (field (ascii "operations") (arr (cons set_operation nil)) end))

abbrev y_encoded : Str
y_encoded =
    ascii
      "{\"conditions\":[{\"expected\":\"version\",\"target\":{\"key\":\"a\",\"kind\":\"key\"},\"version\":\"x\\u0000t\"}],\"operations\":[{\"key\":\"b\",\"op\":\"set\",\"value\":7}],\"schema\":\"mirk-atomic-request/v1\"}"

abbrev y_validated : Validated ℕ
y_validated = record {
  conditions = x_condition ∷ [];
  operations = Operation.set (ascii "b") (num 7) ∷ [];
  idempotency = none;
  request_digest = sha256_hex y_encoded;
}

y_validation : validate_atomic_request y_request in_process_atomic_limits ≡ ok y_validated
unfolding program
y_validation = refl

namespaced_mutate-foreign_example :
    namespaced_mutate (ascii "y") in_memory_atomic y_request 5 one_key
    ≡ (err (rejected invalid_request), one_key)
unfolding has_unit bind_version program
namespaced_mutate-foreign_example =
    namespaced_mutate-foreign (ascii "x") (ascii "y") (ascii "t") in_memory_atomic y_request 5
      one_key y_validated x_condition refl refl x_apart y_validation (inl refl) refl
