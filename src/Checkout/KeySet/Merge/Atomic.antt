-- ===== src/Checkout/KeySet/Merge/Atomic.antt =====
-- A document of keys is taken over as a whole or not at all.
use tamga_c.Prelude.{ℕ, ◌+◌, ◌≡◌, refl, sym, ap, arith, List, ◌++◌, length, length-append, Bytes}
use tamga_c.Memory.Exec.{Allocator, Result, ok, err, pure, ok-injective}
use tamga_c.Errors.{ErrorCode}
use tamga_c.Json.{Items, count}
use tamga_c.Checkout.Primitives.{Primitives}
use tamga_c.Checkout.KeySet.{Entry, KeySet}
use tamga_c.Checkout.KeySet.Keys.{read_document}
use tamga_c.Checkout.KeySet.Store.{SetExec, continue, ◌>>=◌, ◌>>◌, run, reserve}
use tamga_c.Checkout.KeySet.Store.Keeps.{IsValid, Reserved, Extended, unchanged, reserve-Reserved}
use tamga_c.Checkout.KeySet.Merge.{Tally, Report, staged_rows, take_over, add_json}
use tamga_c.Checkout.KeySet.Merge.Rows.{Chosen, staged_rows_lem}

-- What a report says of the rows and of the entries that were chosen from them.
pub record Reports (items : Items) (report : Report) (more : List Entry) : Type 0 where
  pub chosen : Chosen items more
  pub added : report.added ≡ length more
  pub accounted : report.tally.skipped + report.added ≡ count items

abbrev report_of : Tally → KeySet → SetExec Report
report_of tally staged = do
  take_over staged.entries
  run (pure (record { added = length staged.entries; tally = tally }))

abbrev merge : Tally → KeySet → SetExec Report
merge tally staged = do reserve (length staged.entries); report_of tally staged

merge-Reserved :
    (items : Items) (tally : Tally) (staged s : KeySet)
    (r : Result ErrorCode (Unit {0}) × KeySet × ℕ) (m : Allocator)
    → Chosen items staged.entries × (tally.skipped + length staged.entries ≡ count items)
    → Reserved (length staged.entries) s r
    → Extended (Reports items) s (continue r.0 (λ _. report_of tally staged) r.1 m r.2)
unfolding take_over
merge-Reserved items tally staged s (ok u, s', n) m (chosen, sum) h = record {
  valid = record { fits = rw (length-append, h.entries) (h.room refl); bounded = h.valid.bounded };
  taken = λ report e.
      let same = ok-injective e in
      let added : report.added ≡ length staged.entries = ap (λ (t : Report). t.added) (sym same) in
      let skipped : report.tally.skipped ≡ tally.skipped =
        ap (λ (t : Report). t.tally.skipped) (sym same) in
      (
        staged.entries,
        ap (λ es. es ++ staged.entries) h.entries,
        record { chosen = chosen; added = added; accounted = omega (arith, added, skipped, sum) },
      );
  kept = λ e' k. cc;
}
merge-Reserved items tally staged s (err e, s', n) m _ h = unchanged s s' e n h.valid h.entries

merge_staged :
    (items : Items) (s : KeySet) (r : Result ErrorCode (Tally × KeySet) × ℕ) (m : Allocator)
    → ((tally : Tally) (staged : KeySet)
        → r.0 ≡ ok (tally, staged)
        → Chosen items staged.entries × (tally.skipped + length staged.entries ≡ count items))
    → IsValid s
    → Extended (Reports items) s (continue r.0 (λ t. merge t.0 t.1) s m r.1)
merge_staged items s (ok (tally, staged), n) m rows v =
    merge-Reserved items tally staged s (reserve (length staged.entries) s m n) m
      (rows tally staged refl) (reserve-Reserved (length staged.entries) s m n v)
merge_staged items s (err e, n) m rows v = unchanged s s e n v refl

merge_read :
    (p : Primitives) (items : Items) (s : KeySet) (m : Allocator) (n : ℕ)
    → IsValid s
    → Extended (Reports items) s ((run (staged_rows p items) >>= λ t. merge t.0 t.1) s m n)
merge_read p items s m n v =
    merge_staged items s (staged_rows p items m n) m (staged_rows_lem p items m n) v

-- A document that can be read and whose rows are `items` is merged into a valid set as a whole or
-- not at all: where the call succeeds, the new entries are those of some of the rows, in the rows'
-- order and behind the old entries, they are as many as it reports, and with the skipped rows they
-- account for every row; where it fails, the entries are as they were. The set stays valid.
pub add_json-Extended :
    (p : Primitives) (json : Bytes) (items : Items) (s : KeySet) (m : Allocator) (n : ℕ)
    → IsValid s
    → (read_document p json m n).0 ≡ ok items
    → Extended (Reports items) s (add_json p json s m n)
unfolding add_json
add_json-Extended p json items s m n v read =
    rw read (merge_read p items s m (read_document p json m n).1 v)

-- A document that cannot be read leaves the set as it was, and its error is the call's.
pub add_json-unread :
    (p : Primitives) (json : Bytes) (e : ErrorCode) (s : KeySet) (m : Allocator) (n n' : ℕ)
    → read_document p json m n ≡ (err e, n')
    → add_json p json s m n ≡ (err e, s, n')
unfolding add_json
add_json-unread p json e s m n n' unread = rw unread
