-- ===== src/Lib.antt =====
-- Verification of the mirk stores (packages/store/src) and of the fixture loader
-- (packages/fixtures/src).
--
-- The program keeps values under keys and records in collections. Its core is the contract of
-- atomic mutations: a request of conditions and operations is validated and normalized
-- (packages/store/src/atomic.ts), its canonical text is hashed (packages/store/src/canonical.ts),
-- and a store applies all of it or none, with version tokens and idempotency receipts. The
-- reference for every backend is `InMemoryStore` (packages/store/src/backends/memory.ts).
--
-- - Common, Map, Sort, Decimal: tests and lists over the native numbers, results of code that may
--   throw, the `Map` of the language in insertion order, a stable sort, and decimal numerals.
-- - Text: strings as lists of UTF-16 units, and `compareCodePoints` (packages/store/src/order.ts).
-- - Js: JavaScript values as finite trees. The type of numbers is a parameter with the tests and
--   the text that the program uses of it (the interface `Number`).
-- - Canonical: `canonicalJson` and `cloneJson`. Sha256: `sha256HexBytes` and `sha256Hex`, with
--   32-bit words kept below 2 ^ 32 by remainders; Padding and Shape are about its two ends.
-- - Atomic: Target (`compareTargets`, `targetKey`), Limits (`resolveAtomicLimits`, receipt
--   retention), Shape and Encode (the data of a request), Normalize and Validate
--   (`validateAtomicRequest` and its helpers).
-- - Memory: State (the fields of the store), Values (`get`, `set`, `put`, …), Receipts (reading,
--   writing, pruning) and Mutate (`getVersioned`, `mutateAtomically`). The clock is an argument.
--   Listing is about `keys`. View is what a reader sees; Update, Collections, Operations and
--   Apply describe one write; Batch, Conditions, Holds, Outcome, Atomicity, Replay and Reach prove
--   the contract on top of them.
-- - Coordination: the lease transactions of `SqliteCoordinator` (packages/store/src/coordination.ts)
--   on tables by namespace and key. A statement of SQL is the change of the row that it names.
--   Fencing runs any number of them, Exclusion is about one lease.
-- - Filter: `whereCondition`, `inRange` and `assertInValues` (packages/store/src/sql.ts) and
--   `sortAndPageStoreItems` (packages/store/src/order.ts). Memory.Queries has the methods of
--   `InMemoryStore` that use them; Found and Looks are about those.
-- - Log: `InMemoryLogStore` with its argument checks (packages/store/src/log). A record is kept as
--   the value that its text parses to. Appends is about reading what was appended, Rollback about
--   failed transactions.
-- - Graph: `neighbors`, `traverse` and `traverseFrontierBatched` (packages/store/src/graph.ts). The
--   store is a parameter and does not change during a traversal. Sets and Levels follow the search,
--   whatever gives it the edges; Frontier and Distinct
--   say that a level names no node twice; Adjacency, Reach and Batched are about the two ways to
--   get the edges. InMemory has the in-memory store as the store of edges.
-- - Namespace: `namespaceStore` (packages/store/src/namespace.ts) over the interface of a store,
--   which `InMemoryStore` fills. Binding has the names and requests in the store below; Names,
--   Isolation, Apart and Foreign are about them.
-- - Sql: Paths (literals and names), Clauses (`buildWhereClause` and its kin), Queries (the texts
--   of the SQLite adapter) and Tables (`tableResolution` with the answers of its driver, on the
--   rows of the registry). Closed, Placeholders and Balance count placeholders; Literal reads
--   literals back; Candidates and Resolution are about tables. A `bigint` is a number here.
-- - Search: the index of `InMemorySearchStore` (packages/store/src/search). The tokenizer, which
--   rests on the Unicode tables of the language, is a parameter. Counts has sums and counts, which
--   Statistics and Runs follow through the calls.
-- - Fixtures: the loader of fixtures, apart from the stores but for the order of code points.
--   Refs has `parseRef` and its kin (refs.ts), Shape the types (types.ts, errors.ts), Layering
--   `normalizeLayers` and the merges (layering.ts), Registry the registry and
--   `createFixtureLoader`. Of loader.ts, Sources finds and reads files, Documents reads the
--   fixtures in them, Validation checks them, Loading has `loadRaw` and Calls `list`,
--   `resolveRef`, `materialize` and `invalidate`. The three caches are the state of a loader.
--   Sources, parsers, schemas, materializers, `structuredClone` and `JSON.parse` are parameters,
--   and the registry keeps each definition under its type. Keys, Candidates and Fresh are about
--   the caches, Reading about the layers of a fixture, and Merge about deep merges.
-- - Tests: runs on small inputs, and each theorem at an input.
--
-- The loops of the source are structural recursion; the blocks of SHA-256 and the digits of a
-- numeral recurse on a number that the length of the input or the numeral itself bounds. The search
-- for a free table name is unbounded in the source and has fuel here: one round more than there are
-- rows and tables is enough, since the candidates differ. The nesting of `materialize` has fuel too:
-- the references on its stack differ and are held by the files, so that one more than the files
-- hold is enough.
--
-- Not modelled: cyclic values, symbol keys, extra properties of arrays, getters and the prototype
-- chain, which the trees do not have, nor are arrays items of a collection with named fields; the
-- identity of objects, which `===` compares and two trees do not have; the texts of error messages;
-- that a JavaScript engine moves integer-like member names to the front of an object, on which only
-- the choice between two errors, the order of two conditions of a query and the order of members in
-- a merged value depend; aliasing between a stored value and the caller's. Of coordination the timers, the local queue and the retries; of
-- the SQLite adapter all that executes SQL; the scores of a search, which are
-- floating-point numbers; the other backends, vectors and artifacts. Of the fixture loader
-- `validate`, `referenceGraph`, positions in files and the texts of messages; a call runs to its end
-- before the next one starts.
pub mod Atomic
pub mod Canonical
pub mod Common
pub mod Coordination
pub mod Decimal
pub mod Filter
pub mod Fixtures
pub mod Graph
pub mod Js
pub mod Log
pub mod Map
pub mod Memory
pub mod Namespace
pub mod Search
pub mod Sha256
pub mod Sort
pub mod Sql
pub mod Tests
pub mod Text
