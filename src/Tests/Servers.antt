-- ===== src/Tests/Servers.antt =====
-- A server with an empty log, and requests to it.
use daikon.Prelude.{ℕ, ◌≡◌, refl, none, some, arith, add_u64, [], ◌∷◌, List}
use daikon.Error.{ok, err, error_text, invalid_key}
use daikon.Config.{default_config}
use daikon.Value.{estimate_value_size, str}
use daikon.Store.{KvStore, with_config, get}
use daikon.Store.{validate_key, validate_value, in_transaction}
use daikon.Store.Strings.{set, set_expiring}
use daikon.Store.Quiet.{quiet}
use daikon.Store.Strings.Writes.{Accepts}
use daikon.Crypto.{encrypt, encrypt_with, key_from_env}
use daikon.Wal.{
  Attempt, whole, append_opened, encoded, WalOperation, WalEntry, of_outcome, op_set, op_expire,
  op_get_set, new_entry, append, read_all, read_lines, split_lines,
}
use daikon.PubSub
use daikon.Api.{
  Request, App, require_api_key, guarded, or_respond, logged, when_logged, writing, changing,
  publishing, publish_keyspace_events, strip_prefix, bad_request,
}
use daikon.Api.Strings.{
  SetRequest, set_value, set_serialized, refuse_zero_ttl, delete_value, getset_value, store_value,
}
use daikon.Api.Writes.{Write, write_set, write_delete, serve, AllAccepted}
use daikon.Startup.{replay_wal, restore_all}
use daikon.Startup.Clock.{Timed, Punctual}
use daikon.Startup.Recovery.{Restorable, replay_wal-serve}
use daikon.Startup.Ttl.{until, set_value_ttl_restarts}
use daikon.Startup.Losses.{getset_value_forgotten, set_value_blocks_start}
use daikon.Tests.Samples.{whole_numbers}
use daikon.Tests.Plain.{no_key, marked_texts, entry_bytes, texts, lossless}

abbrev pub base : KvStore
base = with_config default_config

abbrev pub app : App
app = record { store = base; wal = []; pubsub = PubSub.new; snapshots = [] }

abbrev pub attempt : Attempt
attempt = record { random = none; open_error = none; writing = whole }

abbrev pub request : Request
request = record {
  headers = record { x_api_key = none; authorization = none };
  runtime = none;
  now = 7;
  attempts = λ n. attempt;
}

abbrev pub body : SetRequest
body = record { value = "2"; ttl_secs = none }

-- The server starts again in second 1000; entries with a time to live are replayed in their second.
abbrev restart_second : WalOperation → ℕ → ℕ
restart_second (op_set key value (some ttl)) logged_second = logged_second
restart_second (op_expire key ttl_secs) logged_second = logged_second
restart_second _ logged_second = 1000

abbrev restart : WalEntry → ℕ
restart entry = restart_second entry.operation entry.timestamp

restart_second_keeps :
    (op : WalOperation) (logged_second : ℕ)
    → Timed op
    → restart_second op logged_second ≡ logged_second
restart_second_keeps (op_set key value (some ttl)) logged_second h = refl
restart_second_keeps (op_expire key ttl_secs) logged_second h = refl
restart_second_keeps _ logged_second h = absurd h

restart-Punctual : Punctual restart
restart-Punctual entry h = restart_second_keeps entry.operation entry.timestamp h

abbrev requests : List (Request × Write)
requests = (request, write_set "a" body) ∷ (request, write_delete "b") ∷ []

restorable : Restorable restart base app
unfolding replay_wal read_all read_lines split_lines restore_all quiet
restorable = record { complete = tt; restores = refl }

accepted : AllAccepted requests app
unfolding store_value set set_expiring validate_key validate_value in_transaction
    estimate_value_size
accepted = (refl, refl, (refl, tt, tt))

replay_wal-serve_example :
    replay_wal restart (serve requests app).wal base ≡ ok (quiet (serve requests app).store)
replay_wal-serve_example =
    replay_wal-serve lossless texts base restart restart-Punctual requests app accepted restorable

-- The second request is logged after the first, and the first shows in the store.
serves : (serve requests app).wal ≡ 1 ∷ 10 ∷ 2 ∷ 10 ∷ []
unfolding set_value delete_value guarded or_respond require_api_key set_serialized refuse_zero_ttl
    logged when_logged publishing writing changing publish_keyspace_events append append_opened
    encoded of_outcome encrypt encrypt_with key_from_env
serves = refl

abbrev no_text : SetRequest
no_text = record { value = ""; ttl_secs = none }

pub allowed : require_api_key request ≡ none
unfolding require_api_key
allowed = refl

logs_getset : append attempt (new_entry 7 (op_get_set "a" "")) [] ≡ (ok tt, 3 ∷ 10 ∷ [])
unfolding append append_opened encoded of_outcome encrypt encrypt_with key_from_env
logs_getset = refl

unparsed : marked_texts.value_from_json "" ≡ none
unfolding strip_prefix
unparsed = refl

getset_value_forgotten_example :
    let a' = (getset_value request "a" no_text app).1 in
    (a'.wal ≡ 3 ∷ 10 ∷ []) × (replay_wal restart a'.wal base ≡ ok (quiet base))
getset_value_forgotten_example =
    getset_value_forgotten lossless texts base restart restart-Punctual request "a" no_text app
      (3 ∷ 10 ∷ []) restorable allowed logs_getset unparsed

logs_set : append attempt (new_entry 7 (op_set "" "T2" none)) [] ≡ (ok tt, 4 ∷ 10 ∷ [])
unfolding append append_opened encoded of_outcome encrypt encrypt_with key_from_env
logs_set = refl

refused : (store_value 7 "" "2" none base).0 ≡ err (invalid_key "Key cannot be empty")
unfolding store_value set set_expiring validate_key
refused = refl

set_value_blocks_start_example :
    let (r, a') = set_value request "" body app in
    (r ≡ bad_request (error_text (invalid_key "Key cannot be empty")))
    × (replay_wal restart a'.wal base ≡ err (invalid_key "Key cannot be empty"))
set_value_blocks_start_example =
    set_value_blocks_start lossless texts base restart restart-Punctual request "" body app "T2"
      (4 ∷ 10 ∷ []) (invalid_key "Key cannot be empty") restorable allowed (λ e. cc) refl logs_set
      refused

-- A restart in second 1000, after a SET for three seconds.
abbrev late : WalEntry → ℕ
late entry = 1000

late-Restorable : Restorable late base app
unfolding replay_wal read_all read_lines split_lines restore_all quiet
late-Restorable = record { complete = tt; restores = refl }

logs_ttl : append attempt (new_entry 7 (op_set "a" "T2" (some 3))) [] ≡ (ok tt, 5 ∷ 10 ∷ [])
unfolding append append_opened encoded of_outcome encrypt encrypt_with key_from_env
logs_ttl = refl

base-Accepts : Accepts base "a" (str "2")
unfolding validate_key validate_value in_transaction estimate_value_size
base-Accepts = record { key_ok = refl; value_ok = refl; direct = refl }

set_value_ttl_restarts_example :
    let a' = (set_value request "a" (record { value = "2"; ttl_secs = some 3 }) app).1 in
    ((later : ℕ) → get later "a" a'.store ≡ until 10 (str "2") later)
    × (s : KvStore) × (replay_wal late a'.wal base ≡ ok s)
    × ((later : ℕ) → get later "a" s ≡ until 1003 (str "2") later)
unfolding estimate_value_size add_u64
set_value_ttl_restarts_example =
    set_value_ttl_restarts lossless texts base late request "a" "2" "T2" 2 app (5 ∷ 10 ∷ [])
      late-Restorable allowed refl logs_ttl base-Accepts refl (omega arith) (omega arith)
