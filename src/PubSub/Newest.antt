-- ===== src/PubSub/Newest.antt =====
-- What a queue holds after a publication of pubsub.rs: the newest messages, up to the limit.
use mathlib.Core.List.{append-nil, append_assoc}
use daikon.Prelude.{
  ℕ, zero, suc, ◌+◌, ◌-◌, ◌≤◌, String, false, ◌≡◌, refl, sym, ◌∙◌, ap, Option, none, some, List, [],
  ◌∷◌, ◌++◌, length, length-append, replicate, drop, leb, ◌==◌, arith, Bool-cases, inl, inr,
}
use daikon.Error.{ok}
use daikon.HashMap
use daikon.PubSub.{PubSubMessage, Subscriber, PubSub, subscribers_of, publish, push_message}
use daikon.PubSub.Delivery.{times_in, length-push_message-le, push_times, after_pushes, publish_lem}
use daikon.PubSub.Validity.{Fits, IsValid}

-- The newest messages of a queue to which a message comes a number of times.
abbrev pub newest : ℕ → ℕ → PubSubMessage → List PubSubMessage → List PubSubMessage
newest limit n msg q = drop (length q + n - limit) (q ++ replicate n msg)

join_message :
    (n : ℕ) (msg : PubSubMessage) (q : List PubSubMessage)
    → (q ++ msg ∷ []) ++ replicate n msg ≡ q ++ msg ∷ replicate n msg
join_message n msg q = append_assoc q (msg ∷ []) (replicate n msg)

newest-push_message :
    (limit n : ℕ) (msg : PubSubMessage) (q : List PubSubMessage)
    → 1 ≤ limit
    → length q ≤ limit
    → newest limit n msg (push_message limit msg q) ≡ newest limit (suc n) msg q
unfolding push_message
newest-push_message limit n msg [] one h =
    let room : leb limit 0 ≡ false = ground arith in
    let e : length (msg ∷ []) + n - limit ≡ 0 + suc n - limit = omega arith in
    rw room (ap (λ k. drop k (msg ∷ replicate n msg)) e)
newest-push_message limit n msg (m ∷ q) one h = elim (Bool-cases (leb limit (length (m ∷ q)))) [
  | inl full ↦
      let size : length (m ∷ q) ≡ limit = ground (arith, full) in
      let e : length (q ++ msg ∷ []) + n - limit ≡ n =
        omega (arith, size, length-append q (msg ∷ [])) in
      let f : suc n ≡ length (m ∷ q) + suc n - limit = omega (arith, size) in
      rw full (
        ap (λ k. drop k ((q ++ msg ∷ []) ++ replicate n msg)) e
        ∙ ap (drop n) (join_message n msg q)
        ∙ ap (λ k. drop k ((m ∷ q) ++ msg ∷ replicate n msg)) f)
  | inr room ↦
      let e : length ((m ∷ q) ++ msg ∷ []) + n - limit ≡ length (m ∷ q) + suc n - limit =
        omega (arith, length-append (m ∷ q) (msg ∷ [])) in
      rw room (
        ap (λ k. drop k (((m ∷ q) ++ msg ∷ []) ++ replicate n msg)) e
        ∙ ap (drop (length (m ∷ q) + suc n - limit)) (join_message n msg (m ∷ q)))
]

push_times-newest :
    (n limit : ℕ) (msg : PubSubMessage) (q : List PubSubMessage)
    → 1 ≤ limit
    → length q ≤ limit
    → push_times n limit msg q ≡ newest limit n msg q
unfolding push_times
push_times-newest zero limit msg q one h =
    let e : length q + zero - limit ≡ 0 = omega arith in
    sym (ap (λ k. drop k (q ++ [])) e ∙ append-nil q)
push_times-newest (suc n) limit msg q one h =
    push_times-newest n limit msg (push_message limit msg q) one
      (length-push_message-le limit msg q one h)
    ∙ newest-push_message limit n msg q one h

abbrev pub after_newest : ℕ → ℕ → PubSubMessage → Option Subscriber → Option Subscriber
after_newest n limit msg none = none
after_newest n limit msg (some sub) = some (record { messages = newest limit n msg sub.messages })

after_pushes-newest :
    (n limit : ℕ) (msg : PubSubMessage) (found : Option Subscriber)
    → 1 ≤ limit
    → Fits limit found
    → after_pushes n limit msg found ≡ after_newest n limit msg found
after_pushes-newest n limit msg none one h = refl
after_pushes-newest n limit msg (some sub) one h =
    ap (λ q. some (record { messages = q })) (push_times-newest n limit msg sub.messages one h)

-- Where the queues are within the limit, a message published to a channel with a name comes to the
-- end of the queue of each subscriber that is there, once for every time that its id stands in the
-- channel's list, and the oldest messages over the limit leave; the queues of all others stay as
-- they were. The answer is the length of the list.
pub publish_newest :
    (now : ℕ) (channel message : String) (p : PubSub)
    → IsValid p
    → (channel == "") ≡ false
    → ((publish now channel message p).0 ≡ ok (length (subscribers_of channel p)))
      × ((id : String)
          → HashMap.get id ((publish now channel message p).1.subscribers)
            ≡ after_newest
                (times_in id (subscribers_of channel p))
                p.max_messages_per_subscriber
                (record { channel = channel; message = message; timestamp = now })
                (HashMap.get id p.subscribers))
publish_newest now channel message p v named =
    let published = publish_lem now channel message p named in
    (
      published.0,
      λ id.
          published.2 id
          ∙ after_pushes-newest (times_in id (subscribers_of channel p))
              p.max_messages_per_subscriber
              (record { channel = channel; message = message; timestamp = now })
              (HashMap.get id p.subscribers) v.limit_pos (v.bounded id),
    )
