-- ===== src/PubSub/Validity.antt =====
-- The invariant of pubsub.rs, kept by every step of every thread.
use daikon.Prelude.{
  ℕ, ◌≤◌, String, false, not, ◌≡◌, refl, Option, none, some, List, [], ◌∷◌, ◌++◌, length,
  length-drop, is_empty, retain, ◌==◌, arith, Bool-cases, inl, inr,
}
use daikon.HashMap
use daikon.HashMap.{HashMap}
use daikon.HashMap.Laws.{insert-every, remove-every}
use daikon.PubSub.{
  PubSubMessage, Subscriber, PubSub, subscribers_of, subscribe, unsubscribe, unsubscribe_from,
  deliver_all, poll_messages, poll_from, add_subscriber, cleanup_stale_subscribers, retain_channels,
  waiting,
}
use daikon.PubSub.Delivery.{
  after_pushes, times_in, length-push_times-le, get-deliver_all, poll_loop_lem,
}

abbrev pub Fits : ℕ → Option Subscriber → Type 0
Fits limit none = Unit
Fits limit (some sub) = length sub.messages ≤ limit

abbrev pub Inhabited : Option (List String) → Type 0
Inhabited none = Unit
Inhabited (some ids) = is_empty ids ≡ false

-- No queue is longer than the limit, and no channel is without a subscriber.
pub record IsValid (p : PubSub) : Type 0 where
  pub limit_pos : 1 ≤ p.max_messages_per_subscriber
  pub bounded : (id : String) → Fits p.max_messages_per_subscriber (HashMap.get id p.subscribers)
  pub inhabited : (channel : String) → Inhabited (HashMap.get channel p.channels)

-- A step of a thread. `publish` is two steps, between which other threads run: reading the list
-- of the channel, which changes nothing, and `step_deliver` with the list that was read.
pub data Step : PubSub → PubSub → Type 0 where
  step_subscribe : (channel id : String) (p : PubSub) → Step p ((subscribe channel id p).1)
  step_unsubscribe : (channel id : String) (p : PubSub) → Step p ((unsubscribe channel id p).1)
  step_deliver :
      (msg : PubSubMessage) (ids : List String) (p : PubSub)
      → Step p (record p {
        subscribers = deliver_all p.max_messages_per_subscriber msg ids p.subscribers;
      })
  step_poll : (id : String) (limit : ℕ) (p : PubSub) → Step p ((poll_messages id limit p).1)
  step_cleanup : (p : PubSub) → Step p ((cleanup_stale_subscribers p).1)

add_subscriber-Fits :
    (limit : ℕ) (id : String) (subscribers : HashMap Subscriber)
    → ((j : String) → Fits limit (HashMap.get j subscribers))
    → (j : String) → Fits limit (HashMap.get j (add_subscriber id subscribers))
add_subscriber-Fits limit id subscribers h j =
    elim (Bool-cases (HashMap.contains_key id subscribers)) [
      | inl there ↦ rw there (h j)
      | inr absent ↦ rw absent (insert-every (Fits limit) id _ subscribers (omega arith) h j)
    ]

snoc-inhabited : (xs : List String) (x : String) → is_empty (xs ++ x ∷ []) ≡ false
snoc-inhabited [] x = refl
snoc-inhabited (y ∷ xs) x = refl

subscribe-IsValid :
    (channel id : String) (p : PubSub) → IsValid p → IsValid ((subscribe channel id p).1)
unfolding subscribe
subscribe-IsValid channel id p v = elim (Bool-cases (channel == "")) [
  | inl unnamed ↦ rw unnamed v
  | inr named ↦ rw named (record {
    limit_pos = v.limit_pos;
    bounded = add_subscriber-Fits p.max_messages_per_subscriber id p.subscribers v.bounded;
    inhabited =
        insert-every Inhabited channel _ p.channels (snoc-inhabited (subscribers_of channel p) id)
          v.inhabited;
  })
]

unsubscribe_from-IsValid :
    (channel id : String) (found : Option (List String)) (p : PubSub)
    → IsValid p
    → IsValid (unsubscribe_from channel id found p)
unfolding unsubscribe_from
unsubscribe_from-IsValid channel id none p v = v
unsubscribe_from-IsValid channel id (some ids) p v = record {
  limit_pos = v.limit_pos;
  bounded = v.bounded;
  inhabited = elim (Bool-cases (is_empty (retain (λ j. not (j == id)) ids))) [
    | inl left_empty ↦ rw left_empty (remove-every Inhabited channel p.channels tt v.inhabited)
    | inr left_some ↦
        rw left_some (insert-every Inhabited channel _ p.channels left_some v.inhabited)
  ];
}

unsubscribe-IsValid :
    (channel id : String) (p : PubSub) → IsValid p → IsValid ((unsubscribe channel id p).1)
unfolding unsubscribe
unsubscribe-IsValid channel id p v =
    unsubscribe_from-IsValid channel id (HashMap.get channel p.channels) p v

after_pushes-Fits :
    (n limit : ℕ) (msg : PubSubMessage) (found : Option Subscriber)
    → 1 ≤ limit
    → Fits limit found
    → Fits limit (after_pushes n limit msg found)
after_pushes-Fits n limit msg none one h = tt
after_pushes-Fits n limit msg (some sub) one h = length-push_times-le n limit msg sub.messages one h

deliver-IsValid :
    (msg : PubSubMessage) (ids : List String) (p : PubSub)
    → IsValid p
    → IsValid
        (record p { subscribers = deliver_all p.max_messages_per_subscriber msg ids p.subscribers })
deliver-IsValid msg ids p v = record {
  limit_pos = v.limit_pos;
  bounded = λ id. rw (get-deliver_all p.max_messages_per_subscriber msg ids id p.subscribers) (
      after_pushes-Fits (times_in id ids) p.max_messages_per_subscriber msg
        (HashMap.get id p.subscribers) v.limit_pos (v.bounded id));
  inhabited = v.inhabited;
}

poll_from-IsValid :
    (id : String) (limit : ℕ) (found : Option Subscriber) (p : PubSub)
    → Fits p.max_messages_per_subscriber found
    → IsValid p
    → IsValid ((poll_from id limit found p).1)
unfolding poll_from
poll_from-IsValid id limit none p fits v = v
poll_from-IsValid id limit (some sub) p fits v = record {
  limit_pos = v.limit_pos;
  bounded =
      insert-every (Fits p.max_messages_per_subscriber) id _ p.subscribers
        (rw (poll_loop_lem limit sub.messages) (omega (arith, length-drop limit sub.messages)))
        v.bounded;
  inhabited = v.inhabited;
}

poll-IsValid :
    (id : String) (limit : ℕ) (p : PubSub) → IsValid p → IsValid ((poll_messages id limit p).1)
unfolding poll_messages
poll-IsValid id limit p v =
    poll_from-IsValid id limit (HashMap.get id p.subscribers) p (v.bounded id) v

retain_channels-Inhabited :
    (subscribers : HashMap Subscriber) (channels : HashMap (List String)) (channel : String)
    → Inhabited (HashMap.get channel (retain_channels subscribers channels))
unfolding retain_channels HashMap.get
retain_channels-Inhabited subscribers [] channel = tt
retain_channels-Inhabited subscribers ((c, ids) ∷ channels) channel =
    let rest = retain_channels-Inhabited subscribers channels channel in
    elim (Bool-cases (is_empty (retain (waiting subscribers) ids))) [
      | inl left_empty ↦ rw left_empty rest
      | inr left_some ↦ elim (Bool-cases (c == channel)) [
        | inl same ↦ rw (left_some, same) left_some
        | inr other ↦ rw (left_some, other) rest
      ]
    ]

cleanup-IsValid : (p : PubSub) → IsValid p → IsValid ((cleanup_stale_subscribers p).1)
unfolding cleanup_stale_subscribers
cleanup-IsValid p v = record {
  limit_pos = v.limit_pos;
  bounded = v.bounded;
  inhabited = retain_channels-Inhabited p.subscribers p.channels;
}

-- Every step of a thread keeps the bound on the queues and leaves no channel without a
-- subscriber, also where other threads run between the two steps of a publication.
pub Step-IsValid : {p q : PubSub} → Step p q → IsValid p → IsValid q
Step-IsValid (step_subscribe channel id p) v = subscribe-IsValid channel id p v
Step-IsValid (step_unsubscribe channel id p) v = unsubscribe-IsValid channel id p v
Step-IsValid (step_deliver msg ids p) v = deliver-IsValid msg ids p v
Step-IsValid (step_poll id limit p) v = poll-IsValid id limit p v
Step-IsValid (step_cleanup p) v = cleanup-IsValid p v
