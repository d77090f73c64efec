-- ===== src/Routes/Validity.antt =====
-- The invariants of the store and of the channels, kept by every request and every round.
use daikon.Prelude.{
  ℕ, String, Option, none, some, List, [], ◌∷◌, Bool-cases, inl, inr, ltb, len, not,
}
use mathlib.Core.Option
use daikon.Platform.{Platform}
use daikon.Error.{Result, ok, err, panic}
use daikon.Exec.{Exec}
use daikon.Store.{in_transaction}
use daikon.Store.Strings.Validity.{getset-IsValid, mset-IsValid}
use daikon.Store.Expiry.{cleanup_expired}
use daikon.Store.Expiry.Validity.{cleanup_expired-IsValid}
use daikon.Store.Transactions.Validity.{multi-IsValid, discard-IsValid, exec-IsValid}
use daikon.Store.Hashes.Validity.{hincrbyfloat-IsValid}
use daikon.Store.Sketches.Validity.{pfreserve-IsValid, pfadd-IsValid, pfmerge-IsValid}
use daikon.Store.Scan.{set_keyspace_notifications_enabled}
use daikon.Crypto.{Cipher}
use daikon.Wal.{Codec}
use daikon.Json.{ValueCodec}
use daikon.Lua.{Script}
use daikon.Lua.Validity.{execute_script-IsValid}
use daikon.PubSub.Validity as Channels
use daikon.PubSub.Validity.{step_subscribe, step_unsubscribe, step_poll, Step-IsValid}
use daikon.PubSub.{PubSub}
use daikon.Api.{ApiRuntimeConfig, Request, Response, App, Handler}
use daikon.Api.Strings.{getset_value, mset_values}
use daikon.Api.Expiry.{cleanup_expired_keys, multi, exec, discard}
use daikon.Api.Hashes.{hash_hincrbyfloat, log_float}
use daikon.Api.Sketches.{hll_pfadd, hll_pfreserve, hll_pfmerge}
use daikon.Api.Pipeline.Validity.{pipeline_exec-IsValid}
use daikon.Api.Channels.{
  pubsub_subscribe, pubsub_unsubscribe, pubsub_publish, pubsub_poll_messages, on_pubsub,
}
use daikon.Api.Scripts.{lua_exec, refuse_script, run_on}
use daikon.Api.Reports.{set_keyspace_config}
use daikon.Api.Writes.Validity.{handle-IsValid}
use daikon.Api.Validity.{
  IsValid, KeepsApp, KeepsApp-guarded, KeepsApp-logged, KeepsApp-changing, app_rules,
  publish_keyspace_events-IsValid, publish-IsValid,
}
use daikon.Startup.{cleanup_round}
use daikon.Routes.{
  Route, route_write, route_getset, route_mset, route_hincrbyfloat, route_pfadd, route_pfmerge,
  route_pfreserve, route_multi, route_exec, route_discard, route_cleanup, route_keyspace_config,
  route_pipeline, route_lua, route_subscribe, route_unsubscribe, route_publish, route_poll, round,
  dispatch, serve,
}

module _ ⦃P : Platform⦄ ⦃C : Cipher⦄ ⦃S : Codec⦄ ⦃V : ValueCodec⦄ where
  log_float-IsValid :
      (req : Request) (key field : String) (value : Result P.Float)
      → KeepsApp (log_float req key field value)
  unfolding log_float
  log_float-IsValid req key field (ok value) = record {
    after = λ a v. (KeepsApp-logged _ req _ _ (record { after = λ b w. w })).after a v;
  }
  log_float-IsValid req key field (err e) = record { after = λ a v. v }
  log_float-IsValid req key field panic = record { after = λ a v. v }

  hincrbyfloat-KeepsApp :
      (req : Request) (key field : String) (amount : P.Float)
      → KeepsApp (hash_hincrbyfloat req key field amount)
  unfolding hash_hincrbyfloat
  hincrbyfloat-KeepsApp req key field amount = KeepsApp-guarded req _ (record {
    after = λ a v.
        (log_float-IsValid req key field _).after _
          ((hincrbyfloat-IsValid key field amount).after a.store v.0, v.1);
  })

  run_on-IsValid : (req : Request) (script : Script) → KeepsApp (run_on req script)
  unfolding run_on
  run_on-IsValid req script = record {
    after = λ a v. elim (Bool-cases (in_transaction a.store)) [
      | inl queueing ↦ rw queueing v
      | inr direct ↦
          rw direct
            (execute_script-IsValid req.now req.attempts script (some a.wal) a.store v.0, v.1)
    ];
  }

  refuse_script-IsValid :
      (cfg : Option ApiRuntimeConfig) (source : String) (h : Handler)
      → KeepsApp h
      → KeepsApp (refuse_script cfg source h)
  unfolding refuse_script
  refuse_script-IsValid none source h k = record { after = λ a v. k.after a v }
  refuse_script-IsValid (some cfg) source h k = record {
    after = λ a v. elim (Bool-cases (not cfg.lua_enabled)) [
      | inl off ↦ rw off v
      | inr on ↦ elim (Bool-cases (ltb cfg.max_lua_script_bytes (len source))) [
        | inl long ↦ rw (on, long) v
        | inr short ↦ rw (on, short) (k.after a v)
      ]
    ];
  }

  on_pubsub-KeepsApp :
      {A : Type 0} (m : Exec PubSub A) (reply : Result A → Response)
      → ((p : PubSub) → Channels.IsValid p → Channels.IsValid (m p).1)
      → KeepsApp (on_pubsub m reply)
  unfolding on_pubsub
  on_pubsub-KeepsApp m reply k = record { after = λ a v. (v.0, k a.pubsub v.1) }

  cleanup_round-IsValid : (now : ℕ) (a : App) → IsValid a → IsValid (cleanup_round now a)
  unfolding cleanup_round
  cleanup_round-IsValid now a v =
      let (expired, s) = cleanup_expired now a.store in
      let a' : App = record a { store = s } in
      let v' : IsValid a' = (cleanup_expired-IsValid now a.store v.0, v.1) in
      elim (Bool-cases (ltb 0 expired)) [
        | inl some_gone ↦ rw some_gone (publish_keyspace_events-IsValid now a' v')
        | inr none_gone ↦ rw none_gone v'
      ]

  dispatch-IsValid :
      (load : String → Script) (req : Request) (route : Route) (a : App)
      → IsValid a
      → IsValid (dispatch load req route a)
  unfolding dispatch getset_value mset_values hll_pfadd hll_pfreserve hll_pfmerge multi exec discard
      cleanup_expired_keys set_keyspace_config set_keyspace_notifications_enabled lua_exec
      pubsub_subscribe pubsub_unsubscribe pubsub_publish pubsub_poll_messages
  dispatch-IsValid load req (route_write w) = (handle-IsValid req w).after
  dispatch-IsValid load req (route_getset key body) =
      let k : KeepsApp (getset_value req key body) = search (app_rules, getset-IsValid) depth 8 in
      k.after
  dispatch-IsValid load req (route_mset pairs) =
      let k : KeepsApp (mset_values req pairs) = search (app_rules, mset-IsValid) depth 8 in k.after
  dispatch-IsValid load req (route_hincrbyfloat key field amount) =
      (hincrbyfloat-KeepsApp req key field amount).after
  dispatch-IsValid load req (route_pfadd key values) =
      let k : KeepsApp (hll_pfadd req key values) = search (app_rules, pfadd-IsValid) depth 8 in
      k.after
  dispatch-IsValid load req (route_pfmerge destination sources) =
      let k : KeepsApp (hll_pfmerge req destination sources) =
        search (app_rules, pfmerge-IsValid) depth 8 in
      k.after
  dispatch-IsValid load req (route_pfreserve key precision) =
      let k : KeepsApp (hll_pfreserve req key precision) =
        search (app_rules, pfreserve-IsValid) depth 8 in
      k.after
  dispatch-IsValid load req route_multi =
      let k : KeepsApp (multi req) = search (app_rules, multi-IsValid) depth 8 in k.after
  dispatch-IsValid load req route_exec =
      let k : KeepsApp (exec req) = search (app_rules, exec-IsValid) depth 8 in k.after
  dispatch-IsValid load req route_discard =
      let k : KeepsApp (discard req) = search (app_rules, discard-IsValid) depth 8 in k.after
  dispatch-IsValid load req route_cleanup =
      let k : KeepsApp (cleanup_expired_keys req) =
        search (app_rules, cleanup_expired-IsValid) depth 8 in
      k.after
  dispatch-IsValid load req (route_keyspace_config enabled) =
      (KeepsApp-guarded req _ (KeepsApp-changing _ _ (λ s v. v))).after
  dispatch-IsValid load req (route_pipeline commands) = (pipeline_exec-IsValid req commands).after
  dispatch-IsValid load req (route_lua source) =
      (KeepsApp-guarded req _
        (refuse_script-IsValid req.runtime source _ (run_on-IsValid req (load source)))).after
  dispatch-IsValid load req (route_subscribe channel id) =
      (KeepsApp-guarded req _
        (on_pubsub-KeepsApp _ _ (λ p. Step-IsValid (step_subscribe channel id p)))).after
  dispatch-IsValid load req (route_unsubscribe channel id) =
      (KeepsApp-guarded req _
        (on_pubsub-KeepsApp _ _ (λ p. Step-IsValid (step_unsubscribe channel id p)))).after
  dispatch-IsValid load req (route_publish channel message) =
      (KeepsApp-guarded req _
        (on_pubsub-KeepsApp _ _ (publish-IsValid req.now channel message))).after
  dispatch-IsValid load req (route_poll id limit) =
      (on_pubsub-KeepsApp _ _ (λ p. Step-IsValid (step_poll id (Option.get_or limit 10) p))).after
  dispatch-IsValid load req round = cleanup_round-IsValid req.now

  -- Whatever requests that change the store or the channels the server handles, recoveries and the
  -- requests of replication excepted, in whatever order and with whatever rounds of the background
  -- clean-up between them, the store stays well formed (no key is stored twice, and every stored key
  -- is in the eviction order), no queue of a subscriber grows past its limit, and no channel is
  -- without a subscriber. The requests may be refused, fail in the log or the store, or run scripts.
  pub serve-IsValid :
      (load : String → Script) (routes : List (Request × Route)) (a : App)
      → IsValid a
      → IsValid (serve load routes a)
  unfolding serve
  serve-IsValid load [] a v = v
  serve-IsValid load ((req, route) ∷ routes) a v =
      serve-IsValid load routes _ (dispatch-IsValid load req route a v)
