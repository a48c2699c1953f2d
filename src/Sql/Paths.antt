-- ===== src/Sql/Paths.antt =====
-- The names that SQL text carries: JSON paths as literals, hashed table names and index names
-- (packages/store/src/sql.ts).
use Prim.Native.Nat.{bit_xor}
use mirk.Common.{
  ℕ, zero, suc, ◌*◌, ◌/◌, ◌%◌, ◌^◌, Bool, ◌&&◌, ◌||◌, List, [], ◌∷◌, ◌++◌, drop, length, ltb, leb,
  ◌==◌, if◌then◌else◌,
}
use mirk.Text.{Str, ascii}
use mirk.Decimal.{decimal}
use mirk.Canonical.{quote, hex_digit}
use mirk.Sha256.{utf8}

-- `text.slice(1, -1)`
unfoldable pub without_last : Str → Str
without_last [] = []
without_last (u ∷ []) = []
without_last (u ∷ v ∷ r) = u ∷ without_last (v ∷ r)

abbrev pub inner : Str → Str
inner text = without_last (drop 1 text)

-- `text.replaceAll('\\"', "\\u0022")`
unfoldable pub hide_quotes : Str → Str
hide_quotes [] = []
hide_quotes (u ∷ []) = u ∷ []
hide_quotes (u ∷ v ∷ r) =
    let found = ascii "\\u0022" ++ hide_quotes r in
    let other = u ∷ hide_quotes (v ∷ r) in if u == b'\\' && v == 34 then found else other

-- `jsonPath(field)`
unfoldable pub json_path : Str → Str
unfolding without_last hide_quotes
json_path field = b'$' ∷ b'.' ∷ 34 ∷ (hide_quotes (inner (quote field)) ++ 34 ∷ [])

-- `text.replace(/'/g, "''")`
unfoldable pub double_quotes : Str → Str
double_quotes [] = []
double_quotes (u ∷ s) =
    let rest = double_quotes s in if u == b'\'' then b'\'' ∷ b'\'' ∷ rest else u ∷ rest

-- `'${text.replace(/'/g, "''")}'`
unfoldable pub sql_literal : Str → Str
unfolding double_quotes
sql_literal text = b'\'' ∷ (double_quotes text ++ b'\'' ∷ [])

-- `jsonPathLiteral(field)`
unfoldable pub json_path_literal : Str → Str
unfolding json_path sql_literal
json_path_literal field = sql_literal (json_path field)

-- One round of the hash: `h ^= unit`, then `Math.imul(h, 16777619)`, as a number of 32 bits.
unfoldable pub hash_unit : ℕ → ℕ → ℕ
hash_unit h u = bit_xor h u * 16777619 % 2 ^ 32

unfoldable pub hash_units : ℕ → Str → ℕ
unfolding hash_unit
hash_units h [] = h
hash_units h (u ∷ s) = hash_units (hash_unit h u) s

-- The digits of `toString(36)`, found last first; seven are enough for 32 bits.
unfoldable pub base36_from : ℕ → ℕ → Str → Str
base36_from zero n acc = acc
base36_from (suc f) n acc =
    let digits = hex_digit (n % 36) ∷ acc in
    let rest = base36_from f (n / 36) digits in if ltb n 36 then digits else rest

-- `hashName(s)`
unfoldable pub hash_name : Str → Str
unfolding hash_units base36_from
hash_name s = base36_from 7 (hash_units 2166136261 s) []

-- `/[a-zA-Z0-9_]/`
abbrev pub is_word : ℕ → Bool
is_word u =
    (leb b'a' u && leb u b'z')
    || (leb b'A' u && leb u b'Z')
    || (leb b'0' u && leb u b'9')
    || u == b'_'

-- `name.replace(/[^a-zA-Z0-9_]/g, "_")`
unfoldable pub sanitize : Str → Str
sanitize [] = []
sanitize (u ∷ s) = (if is_word u then u else b'_') ∷ sanitize s

-- `legacyTableName(prefix, name)`
unfoldable pub legacy_table_name : Str → Str → Str
unfolding sanitize hash_name
legacy_table_name prefix name = prefix ++ (sanitize name ++ b'_' ∷ hash_name name)

-- `candidateTableName(legacy, attempt)`
unfoldable pub candidate_table_name : Str → ℕ → Str
candidate_table_name legacy attempt =
    if leb attempt 1 then legacy else legacy ++ b'_' ∷ decimal attempt

-- `ftsTableFor(docsTable)`
unfoldable pub fts_table_for : Str → Str
fts_table_for docs_table = ascii "search_fts_" ++ drop (length (ascii "search_docs_")) docs_table

-- `byte.toString(16).padStart(2, "0")` of every byte
unfoldable pub hex_bytes : List ℕ → Str
hex_bytes [] = []
hex_bytes (b ∷ bs) = hex_digit (b / 16) ∷ hex_digit (b % 16) ∷ hex_bytes bs

-- `indexNameFor(table, field)`
unfoldable pub index_name_for : Str → Str → Str
unfolding without_last json_path hex_bytes
index_name_for table field =
    ascii "ix_" ++ (table ++ b'_' ∷ hex_bytes (utf8 (without_last (drop 3 (json_path field)))))

-- `buildEnsureIndexSql(table, field)`
unfoldable pub build_ensure_index_sql : Str → Str → Str
unfolding index_name_for json_path_literal
build_ensure_index_sql table field =
    ascii "CREATE INDEX IF NOT EXISTS "
    ++ (index_name_for table field
        ++ (ascii " ON "
            ++ (table
                ++ (ascii " (json_extract(data, " ++ (json_path_literal field ++ ascii "))")))))
