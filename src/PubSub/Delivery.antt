-- ===== src/PubSub/Delivery.antt =====
-- What publish and poll of pubsub.rs do to the queues of the subscribers.
use daikon.Prelude.{
  ℕ, zero, suc, ◌+◌, ◌≤◌, String, false, ◌≡◌, refl, sym, ◌∙◌, ap, Option, none, some, List, [], ◌∷◌,
  ◌++◌, length, length-append, take, drop, ◌==◌, eq_iff, if◌then◌else◌, arith, Bool-cases, inl, inr,
}
use mathlib.Core.Option
use daikon.Error.{ok}
use daikon.HashMap
use daikon.HashMap.{HashMap}
use daikon.HashMap.Laws.{get-insert, get-insert_self}
use daikon.PubSub.{
  PubSubMessage, Subscriber, PubSub, subscribers_of, subscribe, publish, push_message, deliver_to,
  deliver_all, poll_loop, poll_from, poll_messages, queue_of,
}

-- How often an id stands in a channel's list.
pub times_in : String → List String → ℕ
times_in id [] = 0
times_in id (x ∷ xs) = (if x == id then 1 else 0) + times_in id xs

unfoldable pub push_times : ℕ → ℕ → PubSubMessage → List PubSubMessage → List PubSubMessage
push_times zero limit msg q = q
push_times (suc n) limit msg q = push_times n limit msg (push_message limit msg q)

abbrev pub after_pushes : ℕ → ℕ → PubSubMessage → Option Subscriber → Option Subscriber
after_pushes n limit msg none = none
after_pushes n limit msg (some sub) =
    some (record { messages = push_times n limit msg sub.messages })

after_no_push :
    (limit : ℕ) (msg : PubSubMessage) (found : Option Subscriber)
    → after_pushes 0 limit msg found ≡ found
unfolding push_times
after_no_push limit msg none = refl
after_no_push limit msg (some sub) = refl

after_more_pushes :
    (n k limit : ℕ) (msg : PubSubMessage) (found : Option Subscriber)
    → after_pushes n limit msg (after_pushes k limit msg found)
      ≡ after_pushes (k + n) limit msg found
unfolding push_times
after_more_pushes n k limit msg none = refl
after_more_pushes n zero limit msg (some sub) =
    let e : n ≡ zero + n = omega arith in ap (λ m. after_pushes m limit msg (some sub)) e
after_more_pushes n (suc k) limit msg (some sub) =
    let e : suc (k + n) ≡ suc k + n = omega arith in
    after_more_pushes n k limit msg
      (some (record { messages = push_message limit msg sub.messages }))
    ∙ ap (λ m. after_pushes m limit msg (some sub)) e

get-deliver_to :
    (limit : ℕ) (msg : PubSubMessage) (x id : String) (subscribers : HashMap Subscriber)
    (found : Option Subscriber)
    → HashMap.get x subscribers ≡ found
    → HashMap.get id (deliver_to limit msg x found subscribers)
      ≡ after_pushes (if x == id then 1 else 0) limit msg (HashMap.get id subscribers)
unfolding deliver_to push_times
get-deliver_to limit msg x id subscribers none e = elim (Bool-cases (x == id)) [
  | inl same ↦
      let gone : HashMap.get id subscribers ≡ none = rw (sym ((eq_iff x id).0 same)) e in
      rw (same, gone) refl
  | inr other ↦ rw other (sym (after_no_push limit msg (HashMap.get id subscribers)))
]
get-deliver_to limit msg x id subscribers (some sub) e = elim (Bool-cases (x == id)) [
  | inl same ↦
      let here : HashMap.get id subscribers ≡ some sub = rw (sym ((eq_iff x id).0 same)) e in
      rw (get-insert, same, here) refl
  | inr other ↦ rw (get-insert, other) (sym (after_no_push limit msg (HashMap.get id subscribers)))
]

pub get-deliver_all :
    (limit : ℕ) (msg : PubSubMessage) (ids : List String) (id : String)
    (subscribers : HashMap Subscriber)
    → HashMap.get id (deliver_all limit msg ids subscribers)
      ≡ after_pushes (times_in id ids) limit msg (HashMap.get id subscribers)
unfolding deliver_all times_in
get-deliver_all limit msg [] id subscribers =
    sym (after_no_push limit msg (HashMap.get id subscribers))
get-deliver_all limit msg (x ∷ ids) id subscribers =
    get-deliver_all limit msg ids id
      (deliver_to limit msg x (HashMap.get x subscribers) subscribers)
    ∙ ap (after_pushes (times_in id ids) limit msg)
        (get-deliver_to limit msg x id subscribers (HashMap.get x subscribers) refl)
    ∙ after_more_pushes (times_in id ids) (if x == id then 1 else 0) limit msg
        (HashMap.get id subscribers)

pub length-push_message-le :
    (limit : ℕ) (msg : PubSubMessage) (q : List PubSubMessage)
    → 1 ≤ limit
    → length q ≤ limit
    → length (push_message limit msg q) ≤ limit
unfolding push_message
length-push_message-le limit msg [] one h = ground arith
length-push_message-le limit msg (m ∷ q) one h =
    ground (arith, length-append q (msg ∷ []), length-append (m ∷ q) (msg ∷ []))

pub length-push_times-le :
    (n limit : ℕ) (msg : PubSubMessage) (q : List PubSubMessage)
    → 1 ≤ limit
    → length q ≤ limit
    → length (push_times n limit msg q) ≤ limit
unfolding push_times
length-push_times-le zero limit msg q one h = h
length-push_times-le (suc n) limit msg q one h =
    length-push_times-le n limit msg (push_message limit msg q) one
      (length-push_message-le limit msg q one h)

-- A message published to a channel with a name is counted once for every entry of the channel's
-- list. Each subscriber that is there has the message pushed as often as its id stands in that
-- list, so no queue of a subscriber outside the list changes; one that is not there stays away.
-- The channels stay as they were.
pub publish_lem :
    (now : ℕ) (channel message : String) (p : PubSub)
    → (channel == "") ≡ false
    → ((publish now channel message p).0 ≡ ok (length (subscribers_of channel p)))
      × ((publish now channel message p).1.channels ≡ p.channels)
      × ((id : String)
          → HashMap.get id ((publish now channel message p).1.subscribers)
            ≡ after_pushes
                (times_in id (subscribers_of channel p))
                p.max_messages_per_subscriber
                (record { channel = channel; message = message; timestamp = now })
                (HashMap.get id p.subscribers))
unfolding publish
publish_lem now channel message p named = rw named (
  refl,
  refl,
  λ id.
      get-deliver_all p.max_messages_per_subscriber
        (record { channel = channel; message = message; timestamp = now })
        (subscribers_of channel p) id p.subscribers,
)

pub poll_loop_lem :
    (limit : ℕ) (messages : List PubSubMessage)
    → poll_loop limit messages ≡ (take limit messages, drop limit messages)
unfolding poll_loop
poll_loop_lem zero messages = refl
poll_loop_lem (suc limit) [] = refl
poll_loop_lem (suc limit) (msg ∷ messages) =
    ap (λ r. (msg ∷ r.0, r.1)) (poll_loop_lem limit messages)

take_nothing : (limit : ℕ) → [] ≡ take {A = PubSubMessage} limit []
take_nothing zero = refl
take_nothing (suc limit) = refl

pub after_poll : ℕ → Option Subscriber → Option Subscriber
after_poll limit none = none
after_poll limit (some sub) = some (record { messages = drop limit sub.messages })

poll_from_lem :
    (id : String) (limit : ℕ) (p : PubSub) (found : Option Subscriber)
    → HashMap.get id p.subscribers ≡ found
    → ((poll_from id limit found p).0
        ≡ ok (take limit (Option.get_or (Option.map (λ sub. sub.messages) found) [])))
      × ((j : String)
          → HashMap.get j ((poll_from id limit found p).1.subscribers)
            ≡ (if id == j then after_poll limit found else HashMap.get j p.subscribers))
unfolding poll_from after_poll
poll_from_lem id limit p none e = (ap ok (take_nothing limit), λ j. ground (arith, eq_iff id j))
poll_from_lem id limit p (some sub) e =
    rw (poll_loop_lem limit sub.messages) (refl, λ j. get-insert id j _ p.subscribers)

-- Polling with a limit gives the oldest messages of the queue, up to the limit and in the order
-- they came, and leaves the rest of the queue; the other queues stay as they were.
pub poll_messages_lem :
    (id : String) (limit : ℕ) (p : PubSub)
    → ((poll_messages id limit p).0 ≡ ok (take limit (queue_of id p)))
      × ((j : String)
          → HashMap.get j ((poll_messages id limit p).1.subscribers) ≡ (
              if id == j
              then after_poll limit (HashMap.get id p.subscribers)
              else HashMap.get j p.subscribers))
unfolding poll_messages
poll_messages_lem id limit p = poll_from_lem id limit p (HashMap.get id p.subscribers) refl

pub times_in-append :
    (id : String) (xs ys : List String) → times_in id (xs ++ ys) ≡ times_in id xs + times_in id ys
unfolding times_in
times_in-append id [] ys = omega arith
times_in-append id (x ∷ xs) ys = omega (arith, times_in-append id xs ys)

-- Subscribing to a channel with a name adds one more delivery of each of its messages to the
-- subscriber, also when the subscriber is on the channel already, and none to the others.
pub subscribe_adds_delivery :
    (channel id : String) (p : PubSub)
    → (channel == "") ≡ false
    → (j : String)
    → times_in j (subscribers_of channel ((subscribe channel id p).1))
      ≡ times_in j (subscribers_of channel p) + (if id == j then 1 else 0)
unfolding subscribe times_in
subscribe_adds_delivery channel id p named j =
    rw (named, get-insert_self)
      (times_in-append j (subscribers_of channel p) (id ∷ []) ∙ omega arith)
