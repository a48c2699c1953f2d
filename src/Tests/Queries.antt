-- ===== src/Tests/Queries.antt =====
-- The theorems on filters, listings and logs at inputs on which their hypotheses hold.
use mirk.Common.{
  ℕ, ◌+◌, ◌≡◌, refl, false, none, some, List, [], ◌∷◌, ◌++◌, length, get_elem?, ltb, ◌==◌, arith,
  if◌then◌else◌,
}
use mirk.Common.Result.{ok, err}
use mirk.Text.{Str, ascii, str_eq}
use mirk.Map
use mirk.Js.{Js, num, str, obj, field, end}
use mirk.Atomic.Limits.{natural}
use mirk.Filter.{StoreFilter, floor_of, sort_items, sort_and_page, assert_in_values, assert_scalars}
use mirk.Filter.Order.{get_elem?-sort_and_page}
use mirk.Memory.Queries.{list, list_where_in, count}
use mirk.Memory.Found.{counted, unpaged, only, count_lem, list_where_in-only}
use mirk.Log
use mirk.Log.{
  Log, LogEntry, list_bounds, append, get, entries_of, transaction, threw, work_error,
  assert_stream, encode_record, store_record,
}
use mirk.Log.Appends.{append_lem, get-append, within_limit, list-get}
use mirk.Log.Rollback.{append_all, transaction_appends}
use mirk.Tests.{nat_number, never_less, after_first, text, program}

abbrev named : Str → Js ℕ
named s = obj (field (ascii "n") (str s) end)

abbrev two_items : List (Js ℕ)
two_items = named (ascii "b") ∷ named (ascii "a") ∷ []

abbrev first_page : StoreFilter ℕ
first_page = record {
  conditions = none;
  sort_by = some (ascii "n");
  descending = false;
  limit = some (floor_of 1);
  offset = some (floor_of 1);
}

get_elem?-sort_and_page_example :
    get_elem? (sort_and_page two_items first_page) 0
    ≡ (if ltb 0 1 then get_elem? (sort_items (some (ascii "n")) false two_items) (1 + 0) else none)
get_elem?-sort_and_page_example = get_elem?-sort_and_page two_items first_page 1 1 0 refl refl

count_lem_example :
    count (ascii "c") (some first_page) after_first
    ≡ counted (list (ascii "c") (some (unpaged first_page)) after_first)
count_lem_example = count_lem (ascii "c") first_page after_first

list_where_in-only_example :
    list_where_in (ascii "c") (ascii "id") (text "x" ∷ []) none after_first
    ≡ list (ascii "c") (some (only (ascii "id") (text "x"))) after_first
unfolding assert_in_values assert_scalars
list_where_in-only_example = list_where_in-only (ascii "c") (ascii "id") (text "x") after_first refl

abbrev one_entry : Log ℕ
one_entry = (ascii "s", num 4 ∷ []) ∷ []

abbrev two_entries : Log ℕ
two_entries = (ascii "s", num 4 ∷ num 7 ∷ []) ∷ []

second_append : append (text "s") (num 7) one_entry ≡ (ok 2, two_entries)
unfolding append assert_stream encode_record store_record entries_of Map.get Map.set str_eq program
second_append = refl

append_lem_example :
    (2 ≡ length (entries_of (ascii "s") one_entry) + 1)
    × ((j : Str)
        → entries_of j two_entries ≡ (
            if str_eq (ascii "s") j
            then entries_of (ascii "s") one_entry ++ num 7 ∷ []
            else entries_of j one_entry))
append_lem_example = append_lem (ascii "s") (num 7) one_entry two_entries 2 second_append

get-append_example : get (text "s") (natural 1) two_entries ≡ (
    if 1 == 2
    then ok (some (record { sequence = 2; value = num 7 }))
    else get (text "s") (natural 1) one_entry)
get-append_example =
    get-append (ascii "s") (num 7) one_entry two_entries 2 1 second_append (omega arith)
      (omega arith)

list-get_example :
    (es : List (LogEntry ℕ)) × (Log.list (text "s") none two_entries ≡ ok es)
    × (ok (get_elem? es 1) ≡ (
        if within_limit 1 none then get (text "s") (natural (0 + 1 + 1)) two_entries else ok none))
unfolding list_bounds
list-get_example =
    list-get (ascii "s") none (record { after = 0; limit = none }) 1 two_entries refl refl
      (omega arith)

transaction_appends_example :
    ((transaction {E = Str} {A = ℕ}
        (λ l. (threw (ascii "e"), append_all ((text "s", num 7) ∷ []) l))
        one_entry).0
      ≡ err (work_error (ascii "e")))
    × ((k : Str)
        → Map.get k
            (transaction {E = Str} {A = ℕ}
              (λ l. (threw (ascii "e"), append_all ((text "s", num 7) ∷ []) l))
              one_entry).1
          ≡ Map.get k one_entry)
transaction_appends_example =
    transaction_appends (threw (ascii "e")) ((text "s", num 7) ∷ []) one_entry
      (work_error (ascii "e")) refl
