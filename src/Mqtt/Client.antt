-- ===== src/Mqtt/Client.antt =====
-- MqttSubscriber and MqttPublisher (include/syrius_orbit/mqtt/MqttSubscriber.hpp,
-- MqttPublisher.hpp), and the wrapper that TypedSubscriber::Subscribe registers
-- (include/syrius_orbit/mqtt/TypedSubscriber.hpp). The mosquitto library is a parameter.
use syrius_orbit_daemon.Common.{
  ℕ, Bool, true, false, not, Option, none, some, List, [], ◌∷◌, ◌++◌, Bytes, is_empty, select,
  if◌then◌else◌,
}
use syrius_orbit_daemon.Mqtt.Messages.{Kind}

-- What the broker and the library answer: whether subscribe and publish return MOSQ_ERR_SUCCESS, and
-- whether topic_matches_sub succeeds and matches.
pub record Mosquitto : Type 0 where
  pub subscribe : Bytes → ℕ → Bool
  pub matches : Bytes → Bytes → Bool
  pub publish : Bytes → Bytes → ℕ → Bool → Bool

-- A registered callback: it captures the VDA5050Subscriber of the endpoint `owner`.
pub record Subscription : Type 0 where
  pub topic_filter : Bytes
  pub owner : ℕ
  pub kind : Kind

-- subscriptions_, and whether a connect callback is set.
pub record Client : Type 0 where
  pub subscriptions : List Subscription
  pub connect_callback : Bool

abbrev pub new_client : Client
new_client = record { subscriptions = []; connect_callback = false }

-- MqttSubscriber::Subscribe, behind the same test in TypedSubscriber::Subscribe.
unfoldable pub subscribe : Mosquitto → Bytes → ℕ → ℕ → Kind → Client → Bool × Client
subscribe mosq topic qos owner kind client =
    if is_empty topic
    then (false, client)
    else if not (mosq.subscribe topic qos)
    then (false, client)
    else let entry : Subscription = record { topic_filter = topic; owner = owner; kind = kind } in
      (true, record client { subscriptions = client.subscriptions ++ (entry ∷ []) })

-- A message from the broker. payloadlen is the length of the payload; a null payload is empty.
pub record RawMessage : Type 0 where
  pub topic : Option Bytes
  pub payload : Bytes

-- handle_message: the subscriptions whose callbacks run, in order of registration.
unfoldable pub matching : Mosquitto → Client → Option Bytes → List Subscription
matching mosq client none = []
matching mosq client (some topic) =
    select (λ s. mosq.matches s.topic_filter topic) client.subscriptions

-- MqttPublisher::Publish.
unfoldable pub publish : Mosquitto → Bytes → Bytes → ℕ → Bool → Bool
publish mosq topic payload qos retain =
    if is_empty topic then false else mosq.publish topic payload qos retain
