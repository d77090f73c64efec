-- ===== src/Startup/Ttl.antt =====
-- Times to live and the restart: the replay counts them from its own second.
use daikon.Prelude.{
  ℕ, ◌+◌, ◌<◌, suc, u64_mod, leb, String, false, ◌≡◌, refl, ap, Option, none, some, if◌then◌else◌,
}
use daikon.Platform.{Platform}
use daikon.Error.{ok}
use daikon.Value.{Value, str}
use daikon.Store.{KvStore, get, validate_key, validate_value, in_transaction, drain_keyspace_events}
use daikon.Store.Quiet.{quiet}
use daikon.Store.Strings.{set_with_ttl}
use daikon.Store.Strings.Writes.{Accepts, needs_eviction, set_with_ttl-get}
use daikon.Crypto.{Bytes, Cipher}
use daikon.Wal
use daikon.Wal.{WalEntry, WalOperation, Codec, new_entry, op_set, read_all}
use daikon.Wal.Lossless.{Lossless, append_reads}
use daikon.Json.{ValueCodec}
use daikon.Api.{
  Request, App, require_api_key, guarded, or_respond, logged, when_logged, writing, publishing,
  answer, publish_keyspace_events,
}
use daikon.Api.Strings.{set_value, set_serialized, refuse_zero_ttl, store_value}
use daikon.Startup.{restore, restore_set, replay_wal}
use daikon.Startup.Handlers.{TextsReadBack}
use daikon.Startup.Recovery.{Restorable, replayed, restore_all-snoc}

-- The value until the last second, and nothing later.
abbrev pub until : ⦃P : Platform⦄ → ℕ → Value → ℕ → Option Value
until last value later = if leb later last then some value else none

module _ ⦃P : Platform⦄ where
  Accepts-quiet :
      (s : KvStore) (key : String) (value : Value)
      → Accepts s key value
      → Accepts (quiet s) key value
  unfolding quiet validate_key validate_value in_transaction
  Accepts-quiet s key value a = record {
    key_ok = a.key_ok;
    value_ok = a.value_ok;
    direct = a.direct;
  }

module _ ⦃P : Platform⦄ ⦃C : Cipher⦄ ⦃S : Codec⦄ ⦃V : ValueCodec⦄ (lossless : Lossless)
    (texts : TextsReadBack) (base : KvStore) (clock : WalEntry → ℕ) where
  -- The replay of a log with one more SET.
  replay_set :
      (req : Request) (key value json : String) (ttl : ℕ) (a : App) (file : Bytes)
      → Restorable clock base a
      → V.value_to_json (str value) ≡ ok json
      → Wal.append (req.attempts 0) (new_entry req.now (op_set key json (some ttl))) a.wal
        ≡ (ok tt, file)
      → let at = clock (new_entry req.now (op_set key json (some ttl))) in
        let (r, s) = set_with_ttl at key (str value) ttl (quiet a.store) in
        r ≡ ok tt → replay_wal clock file base ≡ ok s
  unfolding replay_wal restore restore_set
  replay_set req key value json ttl a file before v appended done =
      let entry = new_entry req.now (op_set key json (some ttl)) in
      let reads =
        (append_reads lossless (req.attempts 0) entry a.wal file before.complete appended).1 in
      let (entries, read, replays) = replayed clock (read_all a.wal) base _ before.restores in
      let s = (set_with_ttl (clock entry) key (str value) ttl (quiet a.store)).1 in
      let applied : restore (clock entry) entry.operation (quiet a.store) ≡ (ok tt, s) =
        rw (texts.read_back value json v) (ap (λ r. (r, s)) done) in
      rw (reads, read, restore_all-snoc clock entries entry base _ s replays applied) refl

  -- After an authorised SET with a time to live that the store takes without evicting, the key is
  -- there until the second of the request and the time to live have passed; after a restart with the
  -- log, until the second of the replay and the time to live have passed, however late that is. The
  -- log could be replayed before, both ends are below 2 ^ 64, and the texts and lines that were
  -- written read back.
  pub set_value_ttl_restarts :
      (req : Request) (key value json : String) (ttl : ℕ) (a : App) (file : Bytes)
      → Restorable clock base a
      → require_api_key req ≡ none
      → V.value_to_json (str value) ≡ ok json
      → Wal.append (req.attempts 0) (new_entry req.now (op_set key json (some (suc ttl)))) a.wal
        ≡ (ok tt, file)
      → Accepts a.store key (str value)
      → needs_eviction a.store (str value) ≡ false
      → req.now + suc ttl < u64_mod
      → clock (new_entry req.now (op_set key json (some (suc ttl)))) + suc ttl < u64_mod
      → let at = clock (new_entry req.now (op_set key json (some (suc ttl)))) in
        let a' = (set_value req key (record { value = value; ttl_secs = some (suc ttl) }) a).1 in
        ((later : ℕ) → get later key a'.store ≡ until (req.now + suc ttl) (str value) later)
        × (s : KvStore) × (replay_wal clock a'.wal base ≡ ok s)
        × ((later : ℕ) → get later key s ≡ until (at + suc ttl) (str value) later)
  unfolding set_value guarded or_respond set_serialized refuse_zero_ttl logged when_logged
      publishing writing answer publish_keyspace_events drain_keyspace_events store_value get quiet
  set_value_ttl_restarts req key value json ttl a file before allowed v appended accepts roomy fits
        fits_later =
      let at = clock (new_entry req.now (op_set key json (some (suc ttl)))) in
      let here = λ (later : ℕ).
        set_with_ttl-get req.now (suc ttl) later key (str value) a.store accepts roomy fits in
      let there = λ (later : ℕ).
        set_with_ttl-get at (suc ttl) later key (str value) (quiet a.store)
          (Accepts-quiet a.store key (str value) accepts) roomy fits_later in
      rw (allowed, v, appended)
        (
          λ later. (here later).1,
          _,
          replay_set req key value json (suc ttl) a file before v appended (there 0).0,
          λ later. (there later).1,
        )
