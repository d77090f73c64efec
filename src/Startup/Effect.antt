-- ===== src/Startup/Effect.antt =====
-- What a request that writes does to the store and to the log: nothing, or one entry, whose replay
-- at the start of the server does the same to the store.
use daikon.Prelude.{String, false, ◌≡◌, refl, ap, ◌∙◌, Option-cases, inl, inr}
use daikon.Platform.{Platform}
use daikon.Error.{Result, ok, err, panic}
use daikon.Exec.{Exec}
use daikon.Exec.Steady.{Steady, is_panic}
use daikon.Store.{KvStore, drain_keyspace_events}
use daikon.Store.Quiet.{quiet}
use daikon.Crypto.{Bytes, Cipher}
use daikon.Wal.{WalOperation, Codec, new_entry, op_set}
use daikon.Wal
use daikon.Wal.Lossless.{Unwritten, append-Unwritten}
use daikon.Api.Writes.{Uncut}
use daikon.Replay.{ignore, ignore_result}
use daikon.Json.{ValueCodec}
use daikon.Api.{
  Request, Response, App, Handler, require_api_key, guarded, or_respond, logged, when_logged,
  writing, changing, publishing, publish_keyspace_events,
}
use daikon.Startup.{restore}

module _ {S A : Type 0} where
  ignore_result-done : (r : Result A × S) → is_panic r.0 ≡ false → ignore_result r ≡ (ok tt, r.1)
  unfolding ignore_result
  ignore_result-done (ok a, s) h = refl
  ignore_result-done (err e, s) h = refl
  ignore_result-done (panic, s) h = cc

  ignore-Steady :
      {q : S → S} (m : Exec S A) → Steady q m → (s : S) → ignore m (q s) ≡ (ok tt, q (m s).1)
  unfolding ignore
  ignore-Steady {q} m c s =
      ignore_result-done (m (q s)) (c.returns (q s)) ∙ ap (λ r. (ok tt, r.1)) (c.after s)

module _ ⦃P : Platform⦄ ⦃C : Cipher⦄ ⦃S : Codec⦄ ⦃V : ValueCodec⦄ where
  -- The effect of a request that found the state `a`.
  pub data Effect (req : Request) (a a' : App) : Type 0 where
    nothing : a'.wal ≡ a.wal → a'.store ≡ a.store → Effect req a a'
    one_entry :
        (op : WalOperation)
        → Wal.append (req.attempts 0) (new_entry req.now op) a.wal ≡ (ok tt, a'.wal)
        → restore req.now op (quiet a.store) ≡ (ok tt, quiet a'.store)
        → Effect req a a'

  -- What the part of a handler behind `logged` does.
  pub record Applies (req : Request) (op : WalOperation) (s : KvStore) (h : Handler) : Type 0 where
    pub keeps_wal : (a : App) → ((h a).1).wal ≡ a.wal
    pub restores :
        (a : App) → a.store ≡ s → restore req.now op (quiet s) ≡ (ok tt, quiet ((h a).1).store)

  when_logged-Effect :
      (message : String) (req : Request) (op : WalOperation) (a : App) (h : Handler)
      → Applies req op a.store h
      → (done : Result (Unit {0}) × Bytes)
      → Wal.append (req.attempts 0) (new_entry req.now op) a.wal ≡ done
      → Unwritten done a.wal
      → Effect req a ((when_logged message h done.0 (record a { wal = done.1 })).1)
  unfolding when_logged
  when_logged-Effect message req op a h does (ok done, file) e u =
      one_entry op (rw (does.keeps_wal (record a { wal = file })) e)
        (does.restores (record a { wal = file }) refl)
  when_logged-Effect message req op a h does (err x, file) e u = nothing u refl
  when_logged-Effect message req op a h does (panic, file) e u = nothing u refl

  pub logged-Effect :
      (message : String) (req : Request) (op : WalOperation) (a : App) (h : Handler)
      → Uncut req
      → Applies req op a.store h
      → Effect req a ((logged message req op h a).1)
  unfolding logged
  logged-Effect message req op a h uncut does =
      when_logged-Effect message req op a h does _ refl
        (append-Unwritten (req.attempts 0) (new_entry req.now op) a.wal uncut)

  pub guarded-Effect :
      (req : Request) (h : Handler) (a : App)
      → Effect req a ((h a).1)
      → Effect req a ((guarded req h a).1)
  unfolding guarded or_respond
  guarded-Effect req h a e = elim (Option-cases (require_api_key req)) [
    | inl allowed ↦ rw allowed e
    | inr (refusal, refused) ↦ rw refused (nothing refl refl)
  ]

  pub writing-Applies :
      {A : Type 0} (req : Request) (op : WalOperation) (m : Exec KvStore A)
      (reply : Result A → Response) (s : KvStore)
      → Steady quiet m
      → restore req.now op (quiet s) ≡ ignore m (quiet s)
      → Applies req op s (writing m reply)
  unfolding writing
  writing-Applies req op m reply s c e = record {
    keeps_wal = λ a. refl;
    restores = λ a same. rw same (e ∙ ignore-Steady m c s);
  }

  pub publishing-Applies :
      (req : Request) (op : WalOperation) (s : KvStore) (h : Handler)
      → Applies req op s h
      → Applies req op s (publishing req h)
  unfolding publishing publish_keyspace_events drain_keyspace_events quiet
  publishing-Applies req op s h does = record {
    keeps_wal = λ a. does.keeps_wal a;
    restores = λ a same. does.restores a same;
  }

  changing-Applies :
      {A : Type 0} (req : Request) (op : WalOperation) (f : KvStore → A × KvStore)
      (reply : A → Response) (s : KvStore)
      → restore req.now op (quiet s) ≡ (ok tt, quiet (f s).1)
      → Applies req op s (changing f reply)
  unfolding changing
  changing-Applies req op f reply s e = record {
    keeps_wal = λ a. refl;
    restores = λ a same. rw same e;
  }

  -- The steps of a handler that checks the key, logs and then runs an operation of the store.
  pub written-Effect :
      {A : Type 0} (message : String) (req : Request) (op : WalOperation) (m : Exec KvStore A)
      (reply : Result A → Response) (a : App)
      → Uncut req
      → Steady quiet m
      → restore req.now op (quiet a.store) ≡ ignore m (quiet a.store)
      → Effect req a ((guarded req (logged message req op (writing m reply)) a).1)
  written-Effect message req op m reply a uncut c e =
      guarded-Effect req _ a
        (logged-Effect message req op a _ uncut (writing-Applies req op m reply a.store c e))

  pub published-Effect :
      {A : Type 0} (message : String) (req : Request) (op : WalOperation)
      (f : KvStore → A × KvStore) (reply : A → Response) (a : App)
      → Uncut req
      → restore req.now op (quiet a.store) ≡ (ok tt, quiet (f a.store).1)
      → Effect req a ((logged message req op (publishing req (changing f reply)) a).1)
  published-Effect message req op f reply a uncut e =
      logged-Effect message req op a _ uncut
        (publishing-Applies req op a.store _ (changing-Applies req op f reply a.store e))
