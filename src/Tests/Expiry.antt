-- ===== src/Tests/Expiry.antt =====
-- Keys that expire, and transactions.
use daikon.Prelude.{
  ◌+◌, String, true, ◌≡◌, ◌↔◌, refl, none, some, is_some, List, [], ◌∷◌, length, if◌then◌else◌,
  arith,
}
use daikon.Prelude.Int.{negsuc}
use daikon.Error.{ok}
use daikon.HashMap
use daikon.Value.{ValueWithTtl, str, TransactionOp, op_set, op_delete, op_incr}
use daikon.Store.{KvStore, get}
use daikon.Store.Expiry.{ttl_seconds, expire, persist, cleanup_expired}
use daikon.Store.Expiry.Times.{until, ttl_absent_iff, expire-get, persist_revives}
use daikon.Store.Expiry.Cleanup.{fresh_entry, cleanup_lem}
use daikon.Store.Transactions.{multi, discard, exec}
use daikon.Store.Transactions.Atomic.{queue_all, discard_restores}
use daikon.Store.Transactions.Order.{Ran, entries, exec_runs_queue}
use daikon.Tests.Samples.{whole_numbers, small}
use daikon.Tests.Writes.{small-IsValid}

ttl_absent_iff_example : (ttl_seconds 6 "c" small ≡ negsuc 1) ↔ (get 6 "c" small ≡ none)
ttl_absent_iff_example = ttl_absent_iff 6 "c" small

expire-get_example :
    ((expire 7 "a" 2 small).0 ≡ is_some (get 7 "a" small))
    × (get 9 "a" (expire 7 "a" 2 small).1 ≡ (
        if is_some (get 7 "a" small) then until 9 (7 + 2) (get 7 "a" small) else get 9 "a" small))
expire-get_example = expire-get 7 2 9 "a" small (omega arith)

abbrev entry_c : ValueWithTtl
entry_c = record { value = str "3"; expires_at = some 5 }

found_c : HashMap.get "c" small.store ≡ some entry_c
unfolding HashMap.get
found_c = refl

persist_revives_example :
    (get 6 "c" small ≡ none)
    × ((persist 6 "c" small).0 ≡ true)
    × (get 100 "c" (persist 6 "c" small).1 ≡ some (str "3"))
persist_revives_example = persist_revives 6 100 "c" entry_c small found_c refl (omega arith)

cleanup_lem_example :
    ((j : String)
      → HashMap.get j (cleanup_expired 6 small).1.store ≡ fresh_entry 6 (HashMap.get j small.store))
    × ((cleanup_expired 6 small).0 + length (cleanup_expired 6 small).1.store ≡ 3)
cleanup_lem_example = cleanup_lem 6 small small-IsValid

abbrev ops : List TransactionOp
ops = op_set "a" (str "9") none ∷ op_delete "b" ∷ op_incr "n" ∷ []

exec_runs_queue_example :
    let (r, s') = exec (queue_all ops (multi small).1) in
    (lines : List String) × (r ≡ ok lines)
    × Ran ops (entries small) lines (entries s')
    × (length lines ≡ 3)
    × (s'.transaction_queue ≡ none)
exec_runs_queue_example = exec_runs_queue ops small refl

discard_restores_example : discard (queue_all ops (multi small).1) ≡ (ok tt, small)
discard_restores_example = discard_restores ops small refl

abbrev queued : KvStore
queued = record small { transaction_queue = some ops }
