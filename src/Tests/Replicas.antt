-- ===== src/Tests/Replicas.antt =====
-- A replica and a master: a batch sent twice, and the entries of one second.
use daikon.Prelude.{
  ◌-◌, true, ◌≡◌, ◌↔◌, ◌⊎◌, refl, none, some, List, [], ◌∷◌, take, drop, inl, inr, arith,
}
use daikon.Error
use daikon.Error.{Result, ok, err}
use daikon.Crypto.{encrypt, key_from_env, encrypt_with, seal}
use daikon.Wal
use daikon.Wal.{
  Attempt, whole, append_opened, encoded, WalEntry, op_delete, op_incr, read_all, read_lines,
  read_line, split_lines,
}
use daikon.Store.Validity.{IsValid}
use daikon.Replay.{apply_operation}
use daikon.Replication.{
  Network, Replica, mark_applied, send_heartbeat, fetch_wal_entries, apply_wal_entry, is_fresh,
  after_apply, sync_entries, sync,
}
use daikon.Replication.Dedup.{sync_entries_again}
use daikon.Replication.Stalls.{sync_drops_same_second, sync_stalls}
use daikon.Replication.Validity.{sync-IsValid}
use daikon.Replication.Master.{Master, get_wal_entries, verify_auth}
use daikon.Replication.Master.Pages.{get_wal_entries_lem, verify_auth_iff}
use daikon.Tests.Samples.{whole_numbers, no_cipher, byte_codec, nonce, small}
use daikon.Tests.Writes.{small-IsValid}
use daikon.Tests.Logs.{file}

abbrev first : WalEntry
first = record { timestamp = 7; operation = op_delete "a" }

abbrev second : WalEntry
second = record { timestamp = 7; operation = op_delete "b" }

abbrev batch : List WalEntry
batch = first ∷ second ∷ []

abbrev replica : Replica
replica = record {
  store = small;
  wal = [];
  last_applied_index = 2;
  applied_entry_timestamps = 3 ∷ [];
  last_successful_sync_unix_secs = none;
  last_sync_duration_ms = none;
  lag_entries = 0;
}

abbrev nonces : WalEntry → Attempt
nonces entry = record { random = some nonce; open_error = none; writing = whole }

applies_first :
    apply_wal_entry 9 nonces first replica ≡ (ok tt, (apply_wal_entry 9 nonces first replica).1)
unfolding apply_wal_entry apply_operation Wal.append append_opened encoded encrypt encrypt_with seal
    key_from_env
applies_first = refl

batch_passes : (sync_entries 9 nonces batch [] 0 replica).0 ≡ ok 1
unfolding sync_entries is_fresh after_apply apply_wal_entry apply_operation Wal.append append_opened
    encoded encrypt encrypt_with seal key_from_env
batch_passes = refl

sync_entries_again_example :
    sync_entries 9 nonces batch [] 0 ((sync_entries 9 nonces batch [] 0 replica).1)
    ≡ (ok 0, (sync_entries 9 nonces batch [] 0 replica).1)
sync_entries_again_example = sync_entries_again 9 nonces batch 1 replica batch_passes

sync_drops_same_second_example :
    sync_entries 9 nonces batch [] 0 replica
    ≡ (ok 1, mark_applied 7 ((apply_wal_entry 9 nonces first replica).1))
sync_drops_same_second_example =
    sync_drops_same_second 9 nonces first (second ∷ []) replica _ refl (refl, tt) applies_first

abbrev master_answers : Network
master_answers = record {
  heartbeat = λ index. inr (record { status = 200; status_text = "200 OK"; json = inl "" });
  wal = λ index. inr (record { status = 200; status_text = "200 OK"; json = inr (second ∷ [], 4) });
}

abbrev caught : Replica
caught = mark_applied 7 replica

beats : send_heartbeat master_answers 2 ≡ ok tt
unfolding send_heartbeat
beats = refl

fetches : fetch_wal_entries master_answers 2 ≡ ok (second ∷ [], 4)
unfolding fetch_wal_entries
fetches = refl

sync_stalls_example :
    ((sync 9 1 nonces master_answers caught).0 ≡ ok 0)
    × ((sync 9 1 nonces master_answers caught).1.store ≡ small)
    × ((sync 9 1 nonces master_answers caught).1.last_applied_index ≡ 2)
    × ((sync 9 1 nonces master_answers caught).1.lag_entries ≡ 4 - 2)
sync_stalls_example =
    sync_stalls 9 nonces 1 4 master_answers (second ∷ []) caught beats fetches refl (refl, tt)
      (omega arith)

sync-IsValid_example : IsValid (sync 9 1 nonces master_answers replica).1.store
sync-IsValid_example = sync-IsValid 9 nonces 1 master_answers replica small-IsValid

abbrev master : Master
master = record {
  wal = file;
  replicas = [];
  heartbeat_timeout_secs = 30;
  auth_token = some "secret";
}

get_wal_entries_lem_example :
    get_wal_entries 1 5 master
    ≡ Error.◌>>=◌ (read_all file) (λ entries. ok (take 5 (drop 1 entries)))
get_wal_entries_lem_example = get_wal_entries_lem 1 5 master (omega arith)

guessed :
    (verify_auth (some "guess") master ≡ true)
    ↔ ((master.auth_token ≡ none) ⊎ (some "guess" ≡ master.auth_token))
guessed = verify_auth_iff (some "guess") master
