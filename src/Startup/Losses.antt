-- ===== src/Startup/Losses.antt =====
-- Where the log and the store part: values that the start of the server does not read, and SETs that
-- the store refuses after they are logged.
use daikon.Prelude.{
  ℕ, zero, suc, String, ◌≡◌, ◌≢◌, refl, ap, ◌∙◌, Option, none, some, List, [], ◌∷◌, ◌++◌,
}
use daikon.Platform.{Platform}
use daikon.Error.{KvStoreError, ok, err, error_text}
use daikon.Exec.{continue, pure}
use daikon.Value.{str}
use daikon.Store.{KvStore}
use daikon.Store.Quiet.{quiet}
use daikon.Crypto.{Bytes, Cipher}
use daikon.Wal
use daikon.Wal.{WalOperation, Codec, new_entry, op_set, op_get_set, op_mset, read_all}
use daikon.Wal.Lossless.{Lossless, append_reads}
use daikon.Json.{ValueCodec}
use daikon.Api.{
  Request, App, Handler, publishing, answer, publish_keyspace_events, bad_request, require_api_key,
  guarded, or_respond, logged, when_logged, writing,
}
use daikon.Api.Strings.{
  SetRequest, store_value, set_value, set_serialized, refuse_zero_ttl, getset_value,
}
use daikon.Startup.{restore, restore_all, restore_getset, replay_wal}
use daikon.Api.Strings.Stored.{store_value-Steady}
use daikon.Startup.Clock.{Punctual, restore_any_time}
use daikon.Startup.Handlers.{TextsReadBack, restore_set-store_value}
use daikon.Startup.Recovery.{Restorable, replayed, restore_all-append, one_entry-restores}

module _ ⦃P : Platform⦄ ⦃C : Cipher⦄ ⦃S : Codec⦄ ⦃V : ValueCodec⦄ (lossless : Lossless)
    (texts : TextsReadBack) (base : KvStore) (clock : Wal.WalEntry → ℕ)
    (punctual : Punctual clock) where
  -- An authorised GETSET of a text that is not the JSON of a value is forgotten: once it is logged, a
  -- start with the log gives the store from before the request, whatever the request answered. The
  -- log could be replayed before; the entries that set a time to live are replayed in the second in
  -- which they were logged; the texts and lines that were written read back.
  pub getset_value_forgotten :
      (req : Request) (key : String) (body : SetRequest) (a : App) (file : Bytes)
      → Restorable clock base a
      → require_api_key req ≡ none
      → Wal.append (req.attempts 0) (new_entry req.now (op_get_set key body.value)) a.wal
        ≡ (ok tt, file)
      → V.value_from_json body.value ≡ none
      → let a' = (getset_value req key body a).1 in
        (a'.wal ≡ file) × (replay_wal clock a'.wal base ≡ ok (quiet a.store))
  unfolding getset_value guarded or_respond logged when_logged writing restore restore_getset
  getset_value_forgotten req key body a file before allowed e plain =
      rw (allowed, e)
        (
          refl,
          (one_entry-restores lossless texts base clock punctual req (op_get_set key body.value) a
              (record a { wal = file }) before e (rw plain refl)).restores,
        )

  restore_all_fails :
      (entry : Wal.WalEntry) (entries : List Wal.WalEntry) (s s' s'' : KvStore) (e : KvStoreError)
      → restore_all clock entries s ≡ (ok tt, s')
      → restore (clock entry) entry.operation s' ≡ (err e, s'')
      → restore_all clock (entries ++ entry ∷ []) s ≡ (err e, s'')
  unfolding restore_all
  restore_all_fails entry entries s s' s'' e done fails =
      restore_all-append clock entries (entry ∷ []) s
      ∙ ap (λ r. continue r.0 (λ _. restore_all clock (entry ∷ [])) r.1) done
      ∙ ap (λ r. continue r.0 (λ _. pure tt) r.1) fails

  -- A log whose last entry fails.
  bad_entry :
      (req : Request) (op : WalOperation) (a : App) (file : Bytes) (s : KvStore) (e : KvStoreError)
      → Restorable clock base a
      → Wal.append (req.attempts 0) (new_entry req.now op) a.wal ≡ (ok tt, file)
      → restore req.now op (quiet a.store) ≡ (err e, s)
      → replay_wal clock file base ≡ err e
  unfolding replay_wal
  bad_entry req op a file s e before logged fails =
      let entry = new_entry req.now op in
      let fails_later : restore (clock entry) op (quiet a.store) ≡ (err e, s) =
        restore_any_time (clock entry) req.now op a.store (punctual entry) ∙ fails in
      let reads =
        (append_reads lossless (req.attempts 0) entry a.wal file before.complete logged).1 in
      let (entries, read, replays) = replayed clock (read_all a.wal) base _ before.restores in
      rw (reads, read, restore_all_fails entry entries base _ s e replays fails_later) refl

  refuse_passes :
      (message : String) (ttl_secs : Option ℕ) (h : Handler) (a : App)
      → ttl_secs ≢ some 0
      → refuse_zero_ttl message ttl_secs h a ≡ h a
  unfolding refuse_zero_ttl
  refuse_passes message none h a later = refl
  refuse_passes message (some zero) h a later = absurd (later refl)
  refuse_passes message (some (suc n)) h a later = refl

  set_refused :
      (req : Request) (key : String) (body : SetRequest) (a : App) (json : String)
      (e : KvStoreError)
      → V.value_to_json (str body.value) ≡ ok json
      → (store_value req.now key body.value body.ttl_secs a.store).0 ≡ err e
      → restore req.now (op_set key json body.ttl_secs) (quiet a.store)
        ≡ (err e, quiet (store_value req.now key body.value body.ttl_secs a.store).1)
  unfolding restore
  set_refused req key body a json e v refused = rw (texts.read_back body.value json v) (
      ap (λ m. m (quiet a.store)) (restore_set-store_value req.now key body.value body.ttl_secs)
      ∙ (store_value-Steady req.now key body.value body.ttl_secs).after a.store
      ∙ ap (λ r. (r, quiet (store_value req.now key body.value body.ttl_secs a.store).1)) refused)

  -- An authorised SET that the store refuses, of a key that is too long, say, is answered with 400
  -- after its entry is logged, and from then on the server does not start with this log: the replay
  -- ends with the error of the SET. The log could be replayed before; the entries that set a time to
  -- live are replayed in the second in which they were logged; the texts and lines that were written
  -- read back.
  pub set_value_blocks_start :
      (req : Request) (key : String) (body : SetRequest) (a : App) (json : String) (file : Bytes)
      (e : KvStoreError)
      → Restorable clock base a
      → require_api_key req ≡ none
      → body.ttl_secs ≢ some 0
      → V.value_to_json (str body.value) ≡ ok json
      → Wal.append (req.attempts 0) (new_entry req.now (op_set key json body.ttl_secs)) a.wal
        ≡ (ok tt, file)
      → (store_value req.now key body.value body.ttl_secs a.store).0 ≡ err e
      → let (r, a') = set_value req key body a in
        (r ≡ bad_request (error_text e)) × (replay_wal clock a'.wal base ≡ err e)
  unfolding set_value guarded or_respond set_serialized logged when_logged publishing writing answer
      publish_keyspace_events
  set_value_blocks_start req key body a json file e before allowed later v logged refused =
      rw (allowed, refuse_passes _ body.ttl_secs _ a later, v, logged, refused)
        (
          refl,
          bad_entry req _ a file _ e before logged (set_refused req key body a json e v refused),
        )
