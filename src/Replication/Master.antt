-- ===== src/Replication/Master.antt =====
-- replication.rs: the master, which serves its log by index and keeps the replicas it heard of.
pub mod Pages
use daikon.Prelude.{
  ℕ, zero, suc, ◌+◌, ◌-◌, ◌≤◌, ◌<◌, min, String, Bool, true, false, ◌≡◌, ◌↔◌, ◌⊎◌, refl, sym, ◌∙◌,
  ap, Option, none, some, List, [], ◌∷◌, ltb, leb, ◌==◌, eq_iff, length, take, drop, u64_mod,
  add_u64, add_u64-eq-add, if◌then◌else◌, arith, Bool-cases, inl, inr, length-drop,
}
use mathlib.Core.Option
use mathlib.Core.Option.{some-injective}
use daikon.Error.{Result, ok, err, panic, ◌>>=◌}
use daikon.Crypto.{Bytes, Cipher}
use daikon.Wal.{WalEntry, Codec, read_all}
use daikon.HashMap
use daikon.HashMap.{HashMap}
use daikon.HashMap.Laws.{get-insert}

pub data ReplicaStatus : Type 0 where
  healthy lagging disconnected : ReplicaStatus

pub record ReplicaInfo : Type 0 where
  pub replica_id : String
  pub last_applied_index : ℕ
  pub last_heartbeat : ℕ
  pub lag : ℕ
  pub status : ReplicaStatus

pub record Master : Type 0 where
  pub wal : Bytes
  pub replicas : HashMap ReplicaInfo
  pub heartbeat_timeout_secs : ℕ
  pub auth_token : Option String

token_allows : Option String → Option String → Bool
token_allows none provided = true
token_allows (some expected) none = false
token_allows (some expected) (some token) = token == expected

unfoldable pub verify_auth : Option String → Master → Bool
unfolding token_allows
verify_auth provided m = token_allows m.auth_token provided

-- A time without a heartbeat for longer than the limit.
unfoldable pub refresh : ℕ → ℕ → ReplicaInfo → ReplicaInfo
refresh now timeout info =
    if ltb timeout (now - info.last_heartbeat) then record info { status = disconnected } else info

unfoldable pub refresh_all : ℕ → ℕ → HashMap ReplicaInfo → HashMap ReplicaInfo
refresh_all now timeout [] = []
refresh_all now timeout ((id, info) ∷ replicas) =
    (id, refresh now timeout info) ∷ refresh_all now timeout replicas

unfoldable pub get_replicas_info : ℕ → Master → List ReplicaInfo × Master
get_replicas_info now m =
    let replicas = refresh_all now m.heartbeat_timeout_secs m.replicas in
    (HashMap.values replicas, record m { replicas = replicas })

unfoldable pub remove_replica : String → Master → Result (Unit {0}) × Master
remove_replica id m = (ok tt, record m { replicas = HashMap.remove id m.replicas })

abbrev pub info_for : ℕ → String → ℕ → ℕ → ReplicaInfo
info_for now id last_applied_index total_entries =
    let lag = total_entries - last_applied_index in
    record {
      replica_id = id;
      last_applied_index = last_applied_index;
      last_heartbeat = now;
      lag = lag;
      status = if ltb 100 lag then lagging else healthy;
    }

-- `all_entries[start..end].to_vec()`, which panics where the range is not in order.
unfoldable pub slice : {A : Type 0} → ℕ → ℕ → List A → Result (List A)
slice start end xs = if leb start end then ok (take (end - start) (drop start xs)) else panic

unfoldable pub entries_from : ℕ → ℕ → List WalEntry → Result (List WalEntry)
entries_from from_index limit all_entries =
    if leb (length all_entries) from_index
    then ok []
    else slice from_index (min (add_u64 from_index limit) (length all_entries)) all_entries

module _ ⦃C : Cipher⦄ ⦃S : Codec⦄ where
  registered : ℕ → String → ℕ → Result (List WalEntry) → Master → Result (Unit {0}) × Master
  registered now id last_applied_index (ok entries) m = (
    ok tt,
    record m {
      replicas = HashMap.insert id (info_for now id last_applied_index (length entries)) m.replicas;
    },
  )
  registered now id last_applied_index (err e) m = (err e, m)
  registered now id last_applied_index panic m = (panic, m)

  unfoldable pub register_replica : ℕ → String → ℕ → Master → Result (Unit {0}) × Master
  unfolding registered
  register_replica now id last_applied_index m =
      registered now id last_applied_index (read_all m.wal) m

  unfoldable pub get_wal_entries : ℕ → ℕ → Master → Result (List WalEntry)
  get_wal_entries from_index limit m = read_all m.wal >>= entries_from from_index limit

  unfoldable pub get_total_entries : Master → Result ℕ
  get_total_entries m = read_all m.wal >>= λ entries. ok (length entries)
