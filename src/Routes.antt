-- ===== src/Routes.antt =====
-- server.rs: the routes of the requests that change the store or the channels, recoveries and
-- snapshots excepted, with the rounds of the background clean-up. `load` is what the interpreter makes of
-- the text of a script.
pub mod Validity
use daikon.Prelude.{ℕ, String, Bool, Option, List, [], ◌∷◌}
use daikon.Prelude.Int.{ℤ}
use daikon.Platform.{Platform}
use daikon.Crypto.{Cipher}
use daikon.Wal.{Codec}
use daikon.Json.{ValueCodec}
use daikon.Lua.{Script}
use daikon.Api.{Request, App}
use daikon.Api.Strings.{SetRequest, getset_value, mset_values}
use daikon.Api.Expiry.{cleanup_expired_keys, multi, exec, discard}
use daikon.Api.Hashes.{hash_hincrbyfloat}
use daikon.Api.Sketches.{hll_pfadd, hll_pfreserve, hll_pfmerge}
use daikon.Api.Pipeline.{PipelineCommand, pipeline_exec}
use daikon.Api.Channels.{pubsub_subscribe, pubsub_unsubscribe, pubsub_publish, pubsub_poll_messages}
use daikon.Api.Scripts.{lua_exec}
use daikon.Api.Reports.{set_keyspace_config}
use daikon.Api.Writes.{Write, handle}
use daikon.Startup.{cleanup_round}

module _ ⦃P : Platform⦄ where
  pub data Route : Type 0 where
    route_write : Write → Route
    route_getset : String → SetRequest → Route
    route_mset : List (String × String) → Route
    route_hincrbyfloat : String → String → P.Float → Route
    route_pfadd route_pfmerge : String → List String → Route
    route_pfreserve : String → ℕ → Route
    route_multi route_exec route_discard route_cleanup : Route
    route_keyspace_config : Bool → Route
    route_pipeline : List PipelineCommand → Route
    route_lua : String → Route
    route_subscribe route_unsubscribe route_publish : String → String → Route
    route_poll : String → Option ℕ → Route
    round : Route

module _ ⦃P : Platform⦄ ⦃C : Cipher⦄ ⦃S : Codec⦄ ⦃V : ValueCodec⦄ (load : String → Script) where
  -- The state that a request leaves.
  unfoldable pub dispatch : Request → Route → App → App
  dispatch req (route_write w) a = (handle req w a).1
  dispatch req (route_getset key body) a = (getset_value req key body a).1
  dispatch req (route_mset pairs) a = (mset_values req pairs a).1
  dispatch req (route_hincrbyfloat key field amount) a =
      (hash_hincrbyfloat req key field amount a).1
  dispatch req (route_pfadd key values) a = (hll_pfadd req key values a).1
  dispatch req (route_pfmerge destination sources) a = (hll_pfmerge req destination sources a).1
  dispatch req (route_pfreserve key precision) a = (hll_pfreserve req key precision a).1
  dispatch req route_multi a = (multi req a).1
  dispatch req route_exec a = (exec req a).1
  dispatch req route_discard a = (discard req a).1
  dispatch req route_cleanup a = (cleanup_expired_keys req a).1
  dispatch req (route_keyspace_config enabled) a = (set_keyspace_config req enabled a).1
  dispatch req (route_pipeline commands) a = (pipeline_exec req commands a).1
  dispatch req (route_lua source) a = (lua_exec load req source a).1
  dispatch req (route_subscribe channel id) a = (pubsub_subscribe req id channel a).1
  dispatch req (route_unsubscribe channel id) a = (pubsub_unsubscribe req channel id a).1
  dispatch req (route_publish channel message) a = (pubsub_publish req channel message a).1
  dispatch req (route_poll id limit) a = (pubsub_poll_messages id limit a).1
  dispatch req round a = cleanup_round req.now a

  unfoldable pub serve : List (Request × Route) → App → App
  serve [] a = a
  serve ((req, route) ∷ routes) a = serve routes (dispatch req route a)
