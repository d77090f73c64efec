-- ===== src/Replication/Master/Pages.antt =====
-- What the master of replication.rs answers: pages of its log, and what it knows of the replicas.
use daikon.Prelude.{
  ℕ, zero, suc, ◌+◌, ◌-◌, ◌≤◌, ◌<◌, min, String, true, ◌≡◌, ◌↔◌, ◌⊎◌, refl, sym, ◌∙◌, ap, Option,
  none, some, List, [], ◌∷◌, leb, ◌==◌, eq_iff, length, take, drop, u64_mod, add_u64,
  add_u64-eq-add, if◌then◌else◌, arith, Bool-cases, inl, inr, length-drop,
}
use mathlib.Core.Option
use mathlib.Core.Option.{some-injective}
use daikon.Error.{Result, ok, err, panic, ◌>>=◌}
use daikon.Crypto.{Cipher}
use daikon.Wal.{WalEntry, Codec, read_all}
use daikon.HashMap
use daikon.HashMap.{HashMap}
use daikon.HashMap.Laws.{get-insert}
use daikon.Replication.Master.{
  ReplicaInfo, Master, token_allows, verify_auth, refresh, refresh_all, get_replicas_info, info_for,
  slice, entries_from, registered, register_replica, get_wal_entries,
}

drop_all : {A : Type 0} (n : ℕ) (xs : List A) → length xs ≤ n → drop n xs ≡ []
drop_all zero [] h = refl
drop_all zero (x ∷ xs) h = ground arith
drop_all (suc n) [] h = refl
drop_all (suc n) (x ∷ xs) h = drop_all n xs (omega arith)

take-min : {A : Type 0} (n : ℕ) (xs : List A) → take (min n (length xs)) xs ≡ take n xs
take-min zero xs = let e : min zero (length xs) ≡ zero = omega arith in ap (λ k. take k xs) e
take-min (suc n) [] = let e : min (suc n) zero ≡ zero = omega arith in ap (λ k. take k []) e
take-min (suc n) (x ∷ xs) =
    let e : min (suc n) (suc (length xs)) ≡ suc (min n (length xs)) = omega arith in
    ap (λ k. take k (x ∷ xs)) e ∙ ap (λ l. x ∷ l) (take-min n xs)

take_nothing : {A : Type 0} (n : ℕ) → take {A = A} n [] ≡ []
take_nothing zero = refl
take_nothing (suc n) = refl

entries_from_lem :
    (from_index limit : ℕ) (entries : List WalEntry)
    → from_index + limit < u64_mod
    → entries_from from_index limit entries ≡ ok (take limit (drop from_index entries))
unfolding entries_from slice
entries_from_lem from_index limit entries small =
    elim (Bool-cases (leb (length entries) from_index)) [
      | inl past ↦
          let none_left : drop from_index entries ≡ [] =
            drop_all from_index entries (ground (arith, past)) in
          rw past (ap ok (sym (ap (take limit) none_left ∙ take_nothing limit)))
      | inr inside ↦
          let below : from_index < length entries = ground (arith, inside) in
          let end = min (add_u64 from_index limit) (length entries) in
          let exact : add_u64 from_index limit ≡ from_index + limit =
            add_u64-eq-add from_index limit small in
          let ordered : leb from_index end ≡ true = ground (arith, exact, below) in
          let size : end - from_index ≡ min limit (length (drop from_index entries)) =
            omega (arith, exact, below, length-drop from_index entries) in
          rw (inside, ordered)
            (ap ok (
              ap (λ k. take k (drop from_index entries)) size
              ∙ take-min limit (drop from_index entries)))
    ]

get-refresh_all :
    (now timeout : ℕ) (replicas : HashMap ReplicaInfo) (id : String)
    → HashMap.get id (refresh_all now timeout replicas)
      ≡ Option.map (refresh now timeout) (HashMap.get id replicas)
unfolding refresh_all HashMap.get
get-refresh_all now timeout [] id = refl
get-refresh_all now timeout ((j, info) ∷ replicas) id = elim (Bool-cases (j == id)) [
  | inl same ↦ rw same refl
  | inr other ↦ rw other (get-refresh_all now timeout replicas id)
]

module _ ⦃C : Cipher⦄ ⦃S : Codec⦄ where
  bind_same :
      {f g : List WalEntry → Result (List WalEntry)} (r : Result (List WalEntry))
      → ((entries : List WalEntry) → f entries ≡ g entries)
      → (r >>= f) ≡ (r >>= g)
  bind_same (ok entries) h = h entries
  bind_same (err e) h = refl
  bind_same panic h = refl

  -- A page of the log whose end is below 2 ^ 64: the entries from an index on, up to the
  -- limit, in their order, and none beyond the end of the log; where the log cannot be read,
  -- its error.
  pub get_wal_entries_lem :
      (from_index limit : ℕ) (m : Master)
      → from_index + limit < u64_mod
      → get_wal_entries from_index limit m
        ≡ (read_all m.wal >>= λ entries. ok (take limit (drop from_index entries)))
  unfolding get_wal_entries
  get_wal_entries_lem from_index limit m small =
      bind_same (read_all m.wal) (λ entries. entries_from_lem from_index limit entries small)

  -- After a heartbeat that the master could note, its answer has the replica with the index sent,
  -- the entries missing after it as the lag, and a status that turns to disconnected when the
  -- timeout has passed since; of the others only the status is brought up to date.
  pub get_replicas_info-register_replica :
      (sent now index : ℕ) (id : String) (m : Master) (entries : List WalEntry) (j : String)
      → read_all m.wal ≡ ok entries
      → HashMap.get j ((get_replicas_info now ((register_replica sent id index m).1)).1.replicas)
        ≡ Option.map (refresh now m.heartbeat_timeout_secs) (
            if id == j
            then some (info_for sent id index (length entries))
            else HashMap.get j m.replicas)
  unfolding get_replicas_info register_replica registered
  get_replicas_info-register_replica sent now index id m entries j readable = rw readable (
      get-refresh_all now m.heartbeat_timeout_secs
        (HashMap.insert id (info_for sent id index (length entries)) m.replicas) j
      ∙ ap (Option.map (refresh now m.heartbeat_timeout_secs))
          (get-insert id j (info_for sent id index (length entries)) m.replicas))

token_allows_iff :
    (secret provided : Option String)
    → (token_allows secret provided ≡ true) ↔ ((secret ≡ none) ⊎ (provided ≡ secret))
unfolding token_allows
token_allows_iff none provided = (λ h. inl refl, λ h. refl)
token_allows_iff (some expected) none = (λ h. ground arith, λ h. ground arith)
token_allows_iff (some expected) (some token) = (
  λ h. inr (ap some ((eq_iff token expected).0 h)),
  λ h. elim h [
    | inl no_secret ↦ cc
    | inr same ↦ (eq_iff token expected).1 (some-injective _ _ same)
  ],
)

-- A request is let in exactly when there is no secret or it carries the secret.
pub verify_auth_iff :
    (provided : Option String) (m : Master)
    → (verify_auth provided m ≡ true) ↔ ((m.auth_token ≡ none) ⊎ (provided ≡ m.auth_token))
unfolding verify_auth
verify_auth_iff provided m = token_allows_iff m.auth_token provided
