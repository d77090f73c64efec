-- ===== src/Api.antt =====
-- api.rs: the handlers of the HTTP requests. Here is what they share: the state behind the server,
-- requests, responses, the check of the API key, and the steps that the handlers are put together
-- of. A handler is a function on the state; headers of responses are left out.
pub mod Auth
pub mod Strings
pub mod Expiry
pub mod Lists
pub mod Hashes
pub mod Sketches
pub mod Pipeline
pub mod Writes
pub mod Validity
pub mod Channels
pub mod Snapshots
pub mod Scripts
pub mod Reports
pub mod Master
use daikon.Prelude.{
  ℕ, zero, String, Bool, true, false, Option, none, some, List, [], ◌∷◌, len, format, ◌==◌,
  if◌then◌else◌, starts_with, slice,
}
use daikon.Platform.{Platform}
use daikon.Error.{KvStoreError, Result, ok, err, panic, error_text}
use daikon.Exec.{Exec}
use daikon.Value.{KeyspaceEvent, kind_text}
use daikon.Store.{KvStore, drain_keyspace_events}
use daikon.Crypto.{Bytes, Cipher}
use daikon.Wal.{WalOperation, WalEntry, Attempt, Codec, new_entry}
use daikon.Wal
use daikon.PubSub.{PubSub, publish}
use daikon.Pitr.{Directory}
use daikon.Json.{JsonValue}

pub record ApiRuntimeConfig : Type 0 where
  pub api_key : Option String
  pub lua_enabled : Bool
  pub max_lua_script_bytes : ℕ

-- The two headers that the handlers read; none for one that is missing or not text.
pub record Headers : Type 0 where
  pub x_api_key : Option String
  pub authorization : Option String

-- What a handler gets besides the parameters of its request. `now` is the clock in seconds, and
-- `attempts` has what the system does when the handler logs its n-th entry.
pub record Request : Type 0 where
  pub headers : Headers
  pub runtime : Option ApiRuntimeConfig
  pub now : ℕ
  pub attempts : ℕ → Attempt

abbrev pub and_then : {A B : Type 0} → Option A → (A → Option B) → Option B
and_then none f = none
and_then (some a) f = f a

abbrev pub or_else : {A : Type 0} → Option A → Option A → Option A
or_else none b = b
or_else (some a) b = some a

-- `text.strip_prefix(prefix)`
unfoldable pub strip_prefix : String → String → Option String
strip_prefix prefix text =
    if starts_with text prefix then some (slice text (len prefix) (len text)) else none

abbrev pub bearer : Headers → Option String
bearer headers = and_then headers.authorization (strip_prefix "Bearer ")

abbrev pub provided : Headers → Option String
provided headers = or_else headers.x_api_key (bearer headers)

-- The body is a text, or a value written as JSON; a handler that panics gives no response.
module _ ⦃P : Platform⦄ where
  pub data Body : Type 0 where
    empty : Body
    text : String → Body
    json : JsonValue → Body

  pub data Response : Type 0 where
    response : ℕ → Body → Response
    no_response : Response

  abbrev pub success : JsonValue → Response
  success j = response 200 (json j)

  abbrev pub bad_request : String → Response
  bad_request message = response 400 (text message)

  abbrev pub not_found : Body → Response
  not_found body = response 404 body

  abbrev pub internal_error : String → Response
  internal_error message = response 500 (text message)

  abbrev pub unauthorized : Response
  unauthorized = response 401 (text "Missing or invalid API key")

  abbrev pub too_large : String → Response
  too_large message = response 413 (text message)

  unfoldable pub key_matches : String → Option String → Option Response
  key_matches expected none = some unauthorized
  key_matches expected (some actual) = if actual == expected then none else some unauthorized

  -- None where the handler may go on.
  unfoldable pub require_api_key : Request → Option Response
  unfolding key_matches
  require_api_key req =
      and_then (and_then req.runtime (λ cfg. cfg.api_key))
        λ expected. key_matches expected (provided req.headers)

  -- The state that the requests share.
  pub record App : Type 0 where
    pub store : KvStore
    pub wal : Bytes
    pub pubsub : PubSub
    pub snapshots : Directory

  abbrev pub Handler : Type 0
  Handler = App → Response × App

  -- `match result { Ok(a) => reply(a), Err(e) => failure(e.to_string()) }`
  unfoldable pub answer : {A : Type 0} → (A → Response) → (String → Response) → Result A → Response
  answer reply failure (ok a) = reply a
  answer reply failure (err e) = failure (error_text e)
  answer reply failure panic = no_response

  unfoldable pub or_respond : Option Response → Handler → Handler
  or_respond none handler a = handler a
  or_respond (some refusal) handler a = (refusal, a)

  -- `if let Some(response) = require_api_key(…) { return response; }`
  unfoldable pub guarded : Request → Handler → Handler
  unfolding or_respond
  guarded req handler = or_respond (require_api_key req) handler

  -- A handler that holds the write lock of the store, or the read lock.
  unfoldable pub writing : {A : Type 0} → Exec KvStore A → (Result A → Response) → Handler
  writing m reply a = let (r, s) = m a.store in (reply r, record a { store = s })

  unfoldable pub changing : {A : Type 0} → (KvStore → A × KvStore) → (A → Response) → Handler
  changing f reply a = let (r, s) = f a.store in (reply r, record a { store = s })

  unfoldable pub reading : (KvStore → Response) → Handler
  reading f a = (f a.store, a)

  -- The channels of an event: by its kind, then by its key.
  abbrev pub keyevent_channel : KeyspaceEvent → String
  keyevent_channel event = format ("__keyevent__:" ∷ kind_text event.kind ∷ [])

  abbrev pub keyspace_channel : KeyspaceEvent → String
  keyspace_channel event = format ("__keyspace__:" ∷ event.key ∷ [])

  unfoldable pub publish_event : ℕ → KeyspaceEvent → PubSub → PubSub
  publish_event now event p =
      (publish now (keyspace_channel event) (kind_text event.kind)
        ((publish now (keyevent_channel event) event.key p).1)).1

  unfoldable pub publish_all : ℕ → List KeyspaceEvent → PubSub → PubSub
  publish_all now [] p = p
  publish_all now (event ∷ events) p = publish_all now events (publish_event now event p)

  unfoldable pub publish_keyspace_events : ℕ → App → App
  publish_keyspace_events now a =
      let (events, s) = drain_keyspace_events a.store in
      record a { store = s; pubsub = publish_all now events a.pubsub }

  -- A handler that ends with `publish_keyspace_events`.
  unfoldable pub publishing : Request → Handler → Handler
  publishing req handler a = let (r, a') = handler a in (r, publish_keyspace_events req.now a')

module _ ⦃P : Platform⦄ ⦃C : Cipher⦄ ⦃S : Codec⦄ where
  unfoldable pub when_logged : String → Handler → Result (Unit {0}) → Handler
  when_logged message handler (ok done) a = handler a
  when_logged message handler (err e) a = (internal_error (format (message ∷ error_text e ∷ [])), a)
  when_logged message handler panic a = (no_response, a)

  -- `if let Err(e) = wal.append(&entry) { return … }`, and what follows it. The lock of the store is
  -- taken after the append; here no other request runs between the two.
  unfoldable pub logged : String → Request → WalOperation → Handler → Handler
  unfolding when_logged
  logged message req op handler a =
      let (r, file) = Wal.append (req.attempts 0) (new_entry req.now op) a.wal in
      when_logged message handler r (record a { wal = file })

abbrev pub failed_to_log : String
failed_to_log = "Failed to log operation to WAL: "

abbrev pub wal_error : String
wal_error = "WAL error: "
