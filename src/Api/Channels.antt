-- ===== src/Api/Channels.antt =====
-- api.rs: the handlers of publish and subscribe.
use daikon.Prelude.{ℕ, String, Option, [], ◌∷◌}
use mathlib.Core.Option
use daikon.Platform.{Platform}
use daikon.Error.{Result}
use daikon.PubSub
use daikon.PubSub.{PubSub, PubSubMessage}
use daikon.Exec.{Exec}
use daikon.Json.{JsonValue, json_nat, json_text, json_object, json_list}
use daikon.Api.{Request, Response, Handler, success, bad_request, internal_error, answer, guarded}

module _ ⦃P : Platform⦄ where
  unfoldable pub on_pubsub : {A : Type 0} → Exec PubSub A → (Result A → Response) → Handler
  on_pubsub m reply a = let (r, p) = m a.pubsub in (reply r, record a { pubsub = p })

  -- `subscriber_id`: a new UUID.
  unfoldable pub pubsub_subscribe : Request → String → String → Handler
  pubsub_subscribe req subscriber_id channel = guarded req (
      on_pubsub (PubSub.subscribe channel subscriber_id) (
        answer (λ id. success (json_object (("subscriber_id", json_text subscriber_id) ∷ [])))
          bad_request))

  unfoldable pub pubsub_unsubscribe : Request → String → String → Handler
  pubsub_unsubscribe req channel subscriber_id = guarded req (
      on_pubsub (PubSub.unsubscribe channel subscriber_id) (
        answer (λ done. success (json_object (("status", json_text "unsubscribed") ∷ [])))
          bad_request))

  unfoldable pub pubsub_publish : Request → String → String → Handler
  pubsub_publish req channel message = guarded req (
      on_pubsub (PubSub.publish req.now channel message) (
        answer
          (λ subscribers_count. success (
            json_object (
              ("channel", json_text channel)
              ∷ ("subscribers_count", json_nat subscribers_count)
              ∷ [])))
          bad_request))

  abbrev message_json : PubSubMessage → JsonValue
  message_json msg = json_object (
      ("channel", json_text msg.channel)
      ∷ ("message", json_text msg.message)
      ∷ ("timestamp", json_nat msg.timestamp)
      ∷ [])

  -- `limit`: the parameter of the query, where it is there and a number.
  unfoldable pub pubsub_poll_messages : String → Option ℕ → Handler
  pubsub_poll_messages subscriber_id limit =
      on_pubsub (PubSub.poll_messages subscriber_id (Option.get_or limit 10)) (
        answer
          (λ messages. success (json_object (("messages", json_list message_json messages) ∷ [])))
          bad_request)

  unfoldable pub pubsub_list_channels : Handler
  pubsub_list_channels a = (
    answer (λ channels. success (json_object (("channels", json_list json_text channels) ∷ [])))
        internal_error (PubSub.list_channels a.pubsub),
    a,
  )

  unfoldable pub pubsub_list_subscribers : String → Handler
  pubsub_list_subscribers channel a = (
    answer
        (λ subscribers. success (
          json_object (
            ("channel", json_text channel)
            ∷ ("subscribers", json_list json_text subscribers)
            ∷ [])))
        bad_request (PubSub.list_subscribers channel a.pubsub),
    a,
  )
