-- ===== src/Store/AnyTime.antt =====
-- On a store whose keyspace events are off, eviction does not depend on the clock, which only dates
-- the events.
use daikon.Prelude.{
  ℕ, String, ◌≡◌, refl, ap, sym, ◌∙◌, Option, none, some, List, [], ◌∷◌, ltb, eqb, Bool-cases, inl,
  inr,
}
use daikon.Platform.{Platform}
use daikon.Value.{ValueWithTtl, KeyspaceEventKind}
use daikon.Store.{
  KvStore, emit_keyspace_event, evict_entry, evict, evict_loop, enforce_memory_limit,
}
use daikon.Store.Quiet.{quiet, evict-quiet, enforce-quiet}

module _ ⦃P : Platform⦄ (now later : ℕ) where
  pub emit_off :
      (at : ℕ) (kind : KeyspaceEventKind) (key : String) (s : KvStore)
      → emit_keyspace_event at kind key (quiet s) ≡ quiet s
  unfolding emit_keyspace_event quiet
  emit_off at kind key s = refl

  evict_entry_any_time :
      (key : String) (found : Option ValueWithTtl) (s : KvStore)
      → evict_entry now key found (quiet s) ≡ evict_entry later key found (quiet s)
  unfolding evict_entry quiet emit_keyspace_event
  evict_entry_any_time key none s = refl
  evict_entry_any_time key (some entry) s = refl

  evict_any_time :
      (key : String) (rest : List String) (s : KvStore)
      → evict now key rest (quiet s) ≡ evict later key rest (quiet s)
  unfolding evict
  evict_any_time key rest s =
      ap (λ (t : KvStore). record t { lru_order = rest }) (evict_entry_any_time key _ s)

  evict_loop_any_time :
      (order : List String) (s : KvStore)
      → evict_loop now order (quiet s) ≡ evict_loop later order (quiet s)
  unfolding evict_loop quiet
  evict_loop_any_time [] s = refl
  evict_loop_any_time (key ∷ rest) s =
      elim (Bool-cases (ltb s.config.max_memory_bytes s.stats.memory_bytes)) [
        | inl over ↦ rw over (
            ap (evict_loop now rest) (evict-quiet now key rest s)
            ∙ evict_loop_any_time rest (evict now key rest s)
            ∙ ap (evict_loop later rest)
                (sym (evict-quiet now key rest s) ∙ evict_any_time key rest s))
        | inr under ↦ rw under refl
      ]

  pub enforce_any_time :
      (s : KvStore) → enforce_memory_limit now (quiet s) ≡ enforce_memory_limit later (quiet s)
  unfolding enforce_memory_limit
  enforce_any_time s = elim (Bool-cases (eqb (quiet s).config.max_memory_bytes 0)) [
    | inl unlimited ↦ rw unlimited refl
    | inr limited ↦ rw limited (evict_loop_any_time (quiet s).lru_order s)
  ]

  pub emit_enforced :
      (at : ℕ) (kind : KeyspaceEventKind) (key : String) (s : KvStore)
      → emit_keyspace_event at kind key (enforce_memory_limit at (quiet s))
        ≡ enforce_memory_limit at (quiet s)
  emit_enforced at kind key s = rw (enforce-quiet at s) (emit_off at kind key _)
