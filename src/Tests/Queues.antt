-- ===== src/Tests/Queues.antt =====
-- Two subscribers, one of them twice on the channel.
use daikon.Prelude.{
  ◌+◌, String, ◌≡◌, refl, [], ◌∷◌, length, take, ◌==◌, if◌then◌else◌, arith, Bool-cases, inl, inr,
}
use daikon.Error.{ok}
use daikon.HashMap
use daikon.PubSub.{
  PubSubMessage, PubSub, subscribers_of, queue_of, subscribe, publish, poll_messages, push_message,
  deliver_all,
}
use daikon.PubSub.Delivery.{times_in, after_poll, poll_messages_lem, subscribe_adds_delivery}
use daikon.PubSub.Newest.{after_newest, publish_newest}
use daikon.PubSub.Validity.{IsValid, step_deliver, Step-IsValid}

abbrev hello : PubSubMessage
hello = record { channel = "news"; message = "hello"; timestamp = 7 }

abbrev hub : PubSub
hub = record {
  channels = ("news", "u" ∷ "v" ∷ "u" ∷ []) ∷ [];
  subscribers = ("u", record { messages = hello ∷ [] }) ∷ ("v", record { messages = [] }) ∷ [];
  max_messages_per_subscriber = 2;
}

poll_messages_lem_example :
    ((poll_messages "u" 1 hub).0 ≡ ok (take 1 (queue_of "u" hub)))
    × ((j : String)
        → HashMap.get j ((poll_messages "u" 1 hub).1.subscribers) ≡ (
            if "u" == j
            then after_poll 1 (HashMap.get "u" hub.subscribers)
            else HashMap.get j hub.subscribers))
poll_messages_lem_example = poll_messages_lem "u" 1 hub

one_more_delivery :
    times_in "v" (subscribers_of "news" ((subscribe "news" "v" hub).1))
    ≡ times_in "v" (subscribers_of "news" hub) + 1
one_more_delivery = subscribe_adds_delivery "news" "v" hub refl "v"

hub-IsValid : IsValid hub
unfolding HashMap.get
hub-IsValid = record {
  limit_pos = omega arith;
  bounded = λ id. elim (Bool-cases ("u" == id)) [
    | inl u ↦ rw u (omega arith)
    | inr other ↦ elim (Bool-cases ("v" == id)) [
      | inl v ↦ rw (other, v) (omega arith)
      | inr absent ↦ rw (other, absent) tt
    ]
  ];
  inhabited = λ channel. elim (Bool-cases ("news" == channel)) [
    | inl news ↦ rw news refl
    | inr other ↦ rw other tt
  ];
}

publish_newest_example :
    ((publish 7 "news" "hello" hub).0 ≡ ok (length (subscribers_of "news" hub)))
    × ((id : String)
        → HashMap.get id ((publish 7 "news" "hello" hub).1.subscribers)
          ≡ after_newest
              (times_in id (subscribers_of "news" hub))
              2
              hello
              (HashMap.get id hub.subscribers))
publish_newest_example = publish_newest 7 "news" "hello" hub hub-IsValid refl

abbrev delivered : PubSub
delivered = record hub { subscribers = deliver_all 2 hello ("v" ∷ "w" ∷ []) hub.subscribers }

Step-IsValid_example : IsValid delivered
Step-IsValid_example = Step-IsValid (step_deliver hello ("v" ∷ "w" ∷ []) hub) hub-IsValid

-- The queue of the one who is on the channel twice overflows.
overflow : queue_of "u" ((publish 7 "news" "hello" hub).1) ≡ hello ∷ hello ∷ []
unfolding publish deliver_all push_message HashMap.get HashMap.insert
overflow = refl
