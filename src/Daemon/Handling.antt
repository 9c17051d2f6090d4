-- ===== src/Daemon/Handling.antt =====
-- A message at a client of the running daemon: MqttSubscriber::handle_message
-- (include/syrius_orbit/mqtt/MqttSubscriber.hpp), the wrapped callback of TypedSubscriber::Subscribe
-- (include/syrius_orbit/mqtt/TypedSubscriber.hpp), the loop of VDA5050Subscriber::dispatch, and the
-- callbacks of the bridge (src/VDA5050Proxy.cpp) and of the recorder (src/Vda5050EventRecorder.cpp).
use syrius_orbit_daemon.Common.{
  ℕ, Option, none, some, List, [], ◌∷◌, ◌++◌, Bytes, ◌>>=◌, nat_eq, if◌then◌else◌,
}
use syrius_orbit_daemon.Codec.{Codec}
use syrius_orbit_daemon.Topic.{TopicContext}
use syrius_orbit_daemon.Db.Events.{Table}
use syrius_orbit_daemon.Mqtt.Messages.{Kind, Message, parse}
use syrius_orbit_daemon.Mqtt.Client.{Mosquitto, Client, Subscription, RawMessage, matching}
use syrius_orbit_daemon.Mqtt.Subscriber.{Subscriber, dispatch}
use syrius_orbit_daemon.Mqtt.Publisher.{Serializer, Sent}
use syrius_orbit_daemon.Mqtt.EndPoint
use syrius_orbit_daemon.Mqtt.EndPoint.{EndPoint}
use syrius_orbit_daemon.Proxy.{Callback, forward_to_cloud, forward_to_local, record_event}
use syrius_orbit_daemon.Recorder.{record_message}

-- What was sent, and the table of events.
abbrev pub Effects : Type 0
Effects = List Sent × Table

module _ (c : Codec) (clock : ℕ → Bytes) (there : Mosquitto) (ser : Serializer)
    (to : Option (EndPoint Callback)) where
  -- The endpoint pointer that a callback of the bridge follows without a test; null is `none`, and a
  -- null pointer that is followed has no result.
  abbrev pub forward :
      Option (EndPoint Callback) → TopicContext → Message → Effects → Option Effects
  forward none context message (sent, t) = none
  forward (some ep) context message (sent, t) =
      some (sent ++ (EndPoint.publish there ser context message ep).1, t)

  abbrev pub run_callback : Message → Callback × TopicContext → Effects → Option Effects
  run_callback message (forward_to_cloud, context) (sent, t) = forward to context message (sent, t)
  run_callback message (forward_to_local, context) (sent, t) = forward to context message (sent, t)
  run_callback message (record_event, context) (sent, t) =
      some (sent, record_message c clock context message t)

  unfoldable pub run_callbacks : Message → List (Callback × TopicContext) → Effects → Option Effects
  run_callbacks message [] e = some e
  run_callbacks message (called ∷ calls) e =
      run_callback message called e >>= run_callbacks message calls

  -- The wrapped callback behind its tests of the topic and the length.
  abbrev pub handle_parsed :
      Kind → Bytes → Option Message → Subscriber Callback → Effects → Option Effects
  handle_parsed kind topic none s e = some e
  handle_parsed kind topic (some message) s e = run_callbacks message (dispatch kind topic s) e

  unfoldable pub handle : Kind → Bytes → Bytes → Subscriber Callback → Effects → Option Effects
  handle kind topic payload s e = handle_parsed kind topic (parse c kind payload) s e

  -- The loop over the callbacks of the matching subscriptions, whose `owner` is the endpoint `from`: a
  -- callback that captures another one, which is destroyed, has no result.
  unfoldable pub run_subscriptions :
      EndPoint Callback → Bytes → Bytes → List Subscription → Effects → Option Effects
  run_subscriptions from topic payload [] e = some e
  run_subscriptions from topic payload (s ∷ subscriptions) e =
      if nat_eq s.owner from.id
      then handle s.kind topic payload from.subscriber e
        >>= run_subscriptions from topic payload subscriptions
      else none

  abbrev pub deliver_at :
      EndPoint Callback → Bytes → Option Bytes → List Subscription → Effects → Option Effects
  deliver_at from payload none subscriptions e = some e
  deliver_at from payload (some topic) subscriptions e =
      run_subscriptions from topic payload subscriptions e

  -- handle_message on the client of `from`; `here` is its library, `there` the one of `to`.
  unfoldable pub deliver :
      Mosquitto → Client → EndPoint Callback → RawMessage → Effects → Option Effects
  deliver here client from msg e =
      deliver_at from msg.payload msg.topic (matching here client msg.topic) e
