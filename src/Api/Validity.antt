-- ===== src/Api/Validity.antt =====
-- The invariants of the store and of the channels, over the steps that handlers are put together of.
use daikon.Prelude.{ℕ, String, List, [], ◌∷◌, Bool-cases, Option-cases, inl, inr, ◌==◌}
use daikon.Platform.{Platform}
use daikon.Error.{Result, ok, err, panic}
use daikon.Exec.{Exec}
use daikon.Exec.Keeps.{Keeps}
use daikon.Value.{KeyspaceEvent}
use daikon.Store.{KvStore, drain_keyspace_events}
use daikon.Store.Validity
use daikon.Crypto.{Cipher}
use daikon.Wal
use daikon.Wal.{WalOperation, Codec, new_entry}
use daikon.PubSub
use daikon.PubSub.{PubSub, subscribers_of}
use daikon.PubSub.Validity as Channels
use daikon.PubSub.Validity.{step_deliver, Step-IsValid}
use daikon.Api.{
  Request, Response, App, Handler, require_api_key, guarded, or_respond, logged, when_logged,
  writing, changing, reading, publishing, publish_event, publish_all, publish_keyspace_events,
  keyevent_channel,
}

module _ ⦃P : Platform⦄ where
  -- A well-formed store; queues within their bound, and no channel without a subscriber.
  abbrev pub IsValid : App → Type 0
  IsValid a = Validity.IsValid a.store × Channels.IsValid a.pubsub

  pub record KeepsApp (h : Handler) : Type 0 where
    pub after : (a : App) → IsValid a → IsValid (h a).1

  pub publish-IsValid :
      (now : ℕ) (channel message : String) (p : PubSub)
      → Channels.IsValid p
      → Channels.IsValid (PubSub.publish now channel message p).1
  unfolding PubSub.publish
  publish-IsValid now channel message p v = elim (Bool-cases (channel == "")) [
    | inl unnamed ↦ rw unnamed v
    | inr named ↦ rw named (Step-IsValid (step_deliver _ (subscribers_of channel p) p) v)
  ]

  publish_all-IsValid :
      (now : ℕ) (events : List KeyspaceEvent) (p : PubSub)
      → Channels.IsValid p
      → Channels.IsValid (publish_all now events p)
  unfolding publish_all publish_event
  publish_all-IsValid now [] p v = v
  publish_all-IsValid now (event ∷ events) p v =
      publish_all-IsValid now events _
        (publish-IsValid now _ _ _ (publish-IsValid now (keyevent_channel event) event.key p v))

  pub publish_keyspace_events-IsValid :
      (now : ℕ) (a : App) → IsValid a → IsValid (publish_keyspace_events now a)
  unfolding publish_keyspace_events drain_keyspace_events
  publish_keyspace_events-IsValid now a v =
      (v.0, publish_all-IsValid now a.store.pending_keyspace_events a.pubsub v.1)

  pub KeepsApp-guarded : (req : Request) (h : Handler) → KeepsApp h → KeepsApp (guarded req h)
  unfolding guarded or_respond
  KeepsApp-guarded req h k = record {
    after = λ a v. elim (Option-cases (require_api_key req)) [
      | inl allowed ↦ rw allowed (k.after a v)
      | inr (refusal, refused) ↦ rw refused v
    ];
  }

  pub KeepsApp-writing :
      {A : Type 0} (m : Exec KvStore A) (reply : Result A → Response)
      → Keeps Validity.IsValid m
      → KeepsApp (writing m reply)
  unfolding writing
  KeepsApp-writing m reply k = record { after = λ a v. (k.after a.store v.0, v.1) }

  pub KeepsApp-changing :
      {A : Type 0} (f : KvStore → A × KvStore) (reply : A → Response)
      → ((s : KvStore) → Validity.IsValid s → Validity.IsValid (f s).1)
      → KeepsApp (changing f reply)
  unfolding changing
  KeepsApp-changing f reply k = record { after = λ a v. (k a.store v.0, v.1) }

  pub KeepsApp-reading : (f : KvStore → Response) → KeepsApp (reading f)
  unfolding reading
  KeepsApp-reading f = record { after = λ a v. v }

  pub KeepsApp-publishing : (req : Request) (h : Handler) → KeepsApp h → KeepsApp (publishing req h)
  unfolding publishing
  KeepsApp-publishing req h k = record {
    after = λ a v. publish_keyspace_events-IsValid req.now _ (k.after a v);
  }

module _ ⦃P : Platform⦄ ⦃C : Cipher⦄ ⦃S : Codec⦄ where
  when_logged-IsValid :
      (message : String) (h : Handler) (done : Result (Unit {0})) (a : App)
      → KeepsApp h
      → IsValid a
      → IsValid (when_logged message h done a).1
  unfolding when_logged
  when_logged-IsValid message h (ok done) a k v = k.after a v
  when_logged-IsValid message h (err e) a k v = v
  when_logged-IsValid message h panic a k v = v

  pub KeepsApp-logged :
      (message : String) (req : Request) (op : WalOperation) (h : Handler)
      → KeepsApp h
      → KeepsApp (logged message req op h)
  unfolding logged
  KeepsApp-logged message req op h k = record {
    after = λ a v.
        let (r, file) = Wal.append (req.attempts 0) (new_entry req.now op) a.wal in
        when_logged-IsValid message h r (record a { wal = file }) k v;
  }

  pub ruleset app_rules = (
    KeepsApp-guarded, KeepsApp-writing, KeepsApp-changing, KeepsApp-reading, KeepsApp-publishing,
    KeepsApp-logged,
  )
