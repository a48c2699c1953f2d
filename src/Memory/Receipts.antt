-- ===== src/Memory/Receipts.antt =====
-- The idempotency receipts of `InMemoryStore` (packages/store/src/backends/memory.ts).
use mirk.Common.{ℕ, zero, suc, ◌+◌, Bool, Option, none, some, [], ◌∷◌, if◌then◌else◌}
use mirk.Text.{Str}
use mirk.Map
use mirk.Map.{Map}
use mirk.Atomic.Limits.{is_receipt_expired, receipt_prune_batch}
use mirk.Memory.State.{Store, Receipt, Completed}

-- The first value where receipts are kept forever, else the second.
abbrev pub when_kept : {A : Type 0} → Option ℕ → A → A → A
when_kept none a b = a
when_kept (some _) a b = b

module _ {N : Type 0} where
  abbrev pub expired : ℕ → Option ℕ → Receipt N → Bool
  expired now retention r = is_receipt_expired (some r.created_at) now retention

  abbrev pub live : ℕ → Option ℕ → Option (Receipt N) → Option (Receipt N)
  live now retention none = none
  live now retention (some r) = if expired now retention r then none else some r

  -- `readReceipt(key, now)`: an expired receipt is as good as none.
  unfoldable pub read_receipt : Str → ℕ → Store N → Option (Receipt N)
  read_receipt k now s = live now s.receipt_retention_ms (Map.get k s.receipts)

  -- `writeReceipt`: the receipt goes to the end of the insertion order.
  unfoldable pub write_receipt : Str → ℕ → Str → Completed N → Store N → Store N
  write_receipt k now digest result s = record s {
    receipts =
        Map.set k (record { request_digest = digest; result = result; created_at = now })
          (Map.remove k s.receipts);
  }

  -- The loop of `pruneReceiptBatch`: at most `left` receipts go, up to the first live one.
  unfoldable pub prune_front : ℕ → ℕ → Option ℕ → Map (Receipt N) → Map (Receipt N)
  prune_front zero now retention m = m
  prune_front (suc left) now retention [] = []
  prune_front (suc left) now retention ((k, r) ∷ m) =
      let rest = prune_front left now retention m in
      if expired now retention r then rest else (k, r) ∷ m

  unfoldable pub prune_receipt_batch : ℕ → Store N → Store N
  unfolding prune_front
  prune_receipt_batch now s = when_kept s.receipt_retention_ms s (record s {
    receipts = prune_front receipt_prune_batch now s.receipt_retention_ms s.receipts;
  })

  -- The loop of `pruneExpiredReceipts`, with the number of receipts removed.
  unfoldable pub prune_all : ℕ → Option ℕ → Map (Receipt N) → Map (Receipt N) × ℕ
  prune_all now retention [] = ([], 0)
  prune_all now retention ((k, r) ∷ m) =
      let (kept, removed) = prune_all now retention m in
      if expired now retention r then (kept, removed + 1) else ((k, r) ∷ kept, removed)

  unfoldable pub prune_expired_receipts : ℕ → Store N → Store N × ℕ
  unfolding prune_all
  prune_expired_receipts now s =
      when_kept s.receipt_retention_ms (s, 0)
        (let (kept, removed) = prune_all now s.receipt_retention_ms s.receipts in
          (record s { receipts = kept }, removed))
