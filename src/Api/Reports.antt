-- ===== src/Api/Reports.antt =====
-- api.rs: health, statistics, metrics, memory, and the switch of the keyspace events.
use daikon.Prelude.{ℕ, String, Bool, true, [], ◌∷◌, ltb, format, decimal, if◌then◌else◌}
use mathlib.Core.Option
use daikon.Platform.{Platform}
use daikon.Store.{StoreStats}
use daikon.Store.Scan.{
  memory_profile, keyspace_notifications_enabled, set_keyspace_notifications_enabled,
}
use daikon.Json.{json_bool, json_nat, json_float, json_text, json_object}
use daikon.Api.{Request, Response, response, text, Handler, success, guarded, reading, changing}

module _ ⦃P : Platform⦄ where
  abbrev health : String → Request → Response
  health status req = success (
      json_object (
        ("status", json_text status)
        ∷ (
          "lua_enabled",
          json_bool (Option.get_or (Option.map (λ cfg. cfg.lua_enabled) req.runtime) true),
        )
        ∷ []))

  unfoldable pub health_live : Request → Handler
  health_live req a = (health "ok" req, a)

  unfoldable pub health_ready : Request → Handler
  health_ready req a = (health "ready" req, a)

  -- The share of the hits in the reads.
  abbrev pub hit_share : StoreStats → P.Float
  hit_share stats = P.float_div (P.float_of_nat stats.hits) (P.float_of_nat stats.total_reads)

  unfoldable pub get_stats : Handler
  get_stats = reading λ s. success (
      json_object (
        ("total_keys", json_nat s.stats.total_keys)
        ∷ ("expired_keys", json_nat s.stats.expired_keys)
        ∷ ("total_reads", json_nat s.stats.total_reads)
        ∷ ("total_writes", json_nat s.stats.total_writes)
        ∷ ("total_deletes", json_nat s.stats.total_deletes)
        ∷ ("hits", json_nat s.stats.hits)
        ∷ ("misses", json_nat s.stats.misses)
        ∷ (
          "hit_rate",
          json_float (
              if ltb 0 s.stats.total_reads
              then P.float_mul (hit_share s.stats) (P.float_lit 100 0)
              else P.float_lit 0 0),
        )
        ∷ []))

  -- `capacity`: that of the map.
  unfoldable pub metrics : ℕ → Handler
  metrics capacity = reading λ s. response 200 (
      text (
        format (
          "kv_total_keys "
          ∷ decimal s.stats.total_keys
          ∷ "\nkv_total_reads "
          ∷ decimal s.stats.total_reads
          ∷ "\nkv_total_writes "
          ∷ decimal s.stats.total_writes
          ∷ "\nkv_total_deletes "
          ∷ decimal s.stats.total_deletes
          ∷ "\nkv_cache_hits "
          ∷ decimal s.stats.hits
          ∷ "\nkv_cache_misses "
          ∷ decimal s.stats.misses
          ∷ "\nkv_hit_rate "
          ∷ P.float_text (if ltb 0 s.stats.total_reads then hit_share s.stats else P.float_lit 0 0)
          ∷ "\nkv_memory_bytes "
          ∷ decimal (memory_profile capacity s).total_bytes
          ∷ "\nkv_evictions "
          ∷ decimal s.stats.evictions
          ∷ "\n"
          ∷ [])))

  abbrev events_json : Bool → Response
  events_json enabled =
      success (json_object (("keyspace_notifications_enabled", json_bool enabled) ∷ []))

  unfoldable pub get_keyspace_config : Request → Handler
  get_keyspace_config req =
      guarded req (reading λ s. events_json (keyspace_notifications_enabled s))

  unfoldable pub set_keyspace_config : Request → Bool → Handler
  set_keyspace_config req enabled = guarded req (
      changing (λ s. (tt, set_keyspace_notifications_enabled enabled s))
        (λ done. events_json enabled))

  unfoldable pub get_memory_profile : ℕ → Handler
  get_memory_profile capacity = reading λ s.
      let p = memory_profile capacity s in
      success (
        json_object (
          ("total_bytes", json_nat p.total_bytes)
          ∷ ("key_bytes", json_nat p.key_bytes)
          ∷ ("value_bytes", json_nat p.value_bytes)
          ∷ ("string_values", json_nat p.string_values)
          ∷ ("int_values", json_nat p.int_values)
          ∷ ("float_values", json_nat p.float_values)
          ∷ ("bool_values", json_nat p.bool_values)
          ∷ ("json_values", json_nat p.json_values)
          ∷ ("hyperloglog_values", json_nat p.hyperloglog_values)
          ∷ ("list_values", json_nat p.list_values)
          ∷ ("ttl_entries", json_nat p.ttl_entries)
          ∷ ("heap_fragmentation_ratio", json_float p.heap_fragmentation_ratio)
          ∷ []))
