-- ===== src/PubSub.antt =====
-- pubsub.rs: the publish/subscribe engine. Each method holds its locks to the end, but `publish`,
-- which reads the channel's list and delivers in two steps: `subscribers_of` and `deliver_all`.
pub mod Delivery
pub mod Validity
pub mod Newest
use daikon.Prelude.{
  ℕ, zero, suc, ◌+◌, String, Bool, true, false, not, Option, none, some, is_some, List, [], ◌∷◌,
  ◌++◌, length, map, retain, is_empty, leb, ◌==◌, if◌then◌else◌,
}
use mathlib.Core.Option
use daikon.Error.{Result, ok, err, invalid_key}
use daikon.Exec.{Exec, pure, fail}
use daikon.HashMap
use daikon.HashMap.{HashMap}

pub record PubSubMessage : Type 0 where
  pub channel : String
  pub message : String
  pub timestamp : ℕ

pub record Subscriber : Type 0 where
  pub messages : List PubSubMessage

pub record PubSub : Type 0 where
  pub channels : HashMap (List String)
  pub subscribers : HashMap Subscriber
  pub max_messages_per_subscriber : ℕ

abbrev pub new : PubSub
new = record { channels = []; subscribers = []; max_messages_per_subscriber = 1000 }

-- `channels.get(&channel).cloned().unwrap_or_default()`
abbrev pub subscribers_of : String → PubSub → List String
subscribers_of channel p = Option.get_or (HashMap.get channel p.channels) []

abbrev pub add_subscriber : String → HashMap Subscriber → HashMap Subscriber
add_subscriber id subscribers =
    if HashMap.contains_key id subscribers
    then subscribers
    else HashMap.insert id (record { messages = [] }) subscribers

unfoldable pub subscribe : String → String → Exec PubSub String
subscribe channel subscriber_id p =
    if channel == "" then (err (invalid_key "Channel name cannot be empty"), p) else (
      ok subscriber_id,
      record p {
        channels =
            HashMap.insert channel (subscribers_of channel p ++ subscriber_id ∷ []) p.channels;
        subscribers = add_subscriber subscriber_id p.subscribers;
      },
    )

unfoldable unsubscribe_from : String → String → Option (List String) → PubSub → PubSub
unsubscribe_from channel subscriber_id none p = p
unsubscribe_from channel subscriber_id (some ids) p =
    let left = retain (λ id. not (id == subscriber_id)) ids in
    record p {
      channels =
          if is_empty left
          then HashMap.remove channel p.channels
          else HashMap.insert channel left p.channels;
    }

unfoldable pub unsubscribe : String → String → Exec PubSub (Unit {0})
unfolding unsubscribe_from
unsubscribe channel subscriber_id p =
    (ok tt, unsubscribe_from channel subscriber_id (HashMap.get channel p.channels) p)

abbrev pop_front : List PubSubMessage → List PubSubMessage
pop_front [] = []
pop_front (m ∷ messages) = messages

-- A full queue loses its oldest message.
unfoldable pub push_message : ℕ → PubSubMessage → List PubSubMessage → List PubSubMessage
push_message limit msg messages =
    (if leb limit (length messages) then pop_front messages else messages) ++ msg ∷ []

unfoldable deliver_to :
    ℕ → PubSubMessage → String → Option Subscriber → HashMap Subscriber → HashMap Subscriber
deliver_to limit msg id none subscribers = subscribers
deliver_to limit msg id (some sub) subscribers =
    HashMap.insert id (record { messages = push_message limit msg sub.messages }) subscribers

unfoldable pub deliver_all :
    ℕ → PubSubMessage → List String → HashMap Subscriber → HashMap Subscriber
unfolding deliver_to
deliver_all limit msg [] subscribers = subscribers
deliver_all limit msg (id ∷ ids) subscribers =
    deliver_all limit msg ids (deliver_to limit msg id (HashMap.get id subscribers) subscribers)

unfoldable pub publish : ℕ → String → String → Exec PubSub ℕ
publish now channel message p =
    if channel == ""
    then (err (invalid_key "Channel name cannot be empty"), p)
    else let msg : PubSubMessage = record {
      channel = channel;
      message = message;
      timestamp = now;
    } in
      let subscriber_ids = subscribers_of channel p in
      (
        ok (length subscriber_ids),
        record p {
          subscribers = deliver_all p.max_messages_per_subscriber msg subscriber_ids p.subscribers;
        },
      )

-- `for _ in 0..limit { … pop_front … }`
unfoldable pub poll_loop : ℕ → List PubSubMessage → List PubSubMessage × List PubSubMessage
poll_loop zero messages = ([], messages)
poll_loop (suc limit) [] = ([], [])
poll_loop (suc limit) (msg ∷ messages) =
    let (result, left) = poll_loop limit messages in (msg ∷ result, left)

unfoldable poll_from : String → ℕ → Option Subscriber → Exec PubSub (List PubSubMessage)
poll_from subscriber_id limit none p = (ok [], p)
poll_from subscriber_id limit (some sub) p =
    let (result, left) = poll_loop limit sub.messages in
    (
      ok result,
      record p {
        subscribers = HashMap.insert subscriber_id (record { messages = left }) p.subscribers;
      },
    )

unfoldable pub poll_messages : String → ℕ → Exec PubSub (List PubSubMessage)
unfolding poll_from
poll_messages subscriber_id limit p =
    poll_from subscriber_id limit (HashMap.get subscriber_id p.subscribers) p

unfoldable pub list_channels : PubSub → Result (List String)
list_channels p = ok (HashMap.keys p.channels)

unfoldable pub list_subscribers : String → PubSub → Result (List String)
list_subscribers channel p = ok (subscribers_of channel p)

-- The queue of a subscriber; a subscriber that is not there has no message.
abbrev pub queue_of : String → PubSub → List PubSubMessage
queue_of id p = Option.get_or (Option.map (λ sub. sub.messages) (HashMap.get id p.subscribers)) []

unfoldable pub pending_message_count : String → PubSub → Result ℕ
pending_message_count subscriber_id p = ok (length (queue_of subscriber_id p))

-- Who stays on a channel: those with a message waiting.
abbrev pub waiting : HashMap Subscriber → String → Bool
waiting subscribers id =
    Option.get_or (Option.map (λ sub. not (is_empty sub.messages)) (HashMap.get id subscribers))
      false

unfoldable pub retain_channels : HashMap Subscriber → HashMap (List String) → HashMap (List String)
retain_channels subscribers [] = []
retain_channels subscribers ((channel, ids) ∷ channels) =
    let left = retain (waiting subscribers) ids in
    let rest = retain_channels subscribers channels in
    if is_empty left then rest else (channel, left) ∷ rest

unfoldable pub cleanup_stale_subscribers : Exec PubSub ℕ
cleanup_stale_subscribers p =
    (ok 0, record p { channels = retain_channels p.subscribers p.channels })
