-- ===== src/Mqtt/EndPoint.antt =====
-- VDA5050EndPoint (include/syrius_orbit/mqtt/VDA5050EndPoint.hpp): the publisher's and the
-- subscriber's half on one side, with the direction of each kind checked.
pub mod Forward
pub mod Matches
use syrius_orbit_daemon.Common.{
  ℕ, Bool, true, false, not, Option, List, [], ◌∷◌, Bytes, if◌then◌else◌,
}
use syrius_orbit_daemon.Topic.{TopicContext}
use syrius_orbit_daemon.Mqtt.Messages.{
  Kind, state, visualization, connection, factsheet, order, instant_actions, responses, zone_set,
  Message, kind_of, is_uplink,
}
use syrius_orbit_daemon.Mqtt.Client.{Mosquitto, Client}
use syrius_orbit_daemon.Mqtt.Subscriber
use syrius_orbit_daemon.Mqtt.Subscriber.{Subscriber, new_subscriber}
use syrius_orbit_daemon.Mqtt.Publisher.{Serializer, Sent, publish_kind}

pub data Side : Type 0 where
  local cloud : Side

-- `id` names the endpoint in the subscriptions of its client.
pub record EndPoint (C : Type 0) : Type 0 where
  pub id : ℕ
  pub side : Side
  pub subscriber : Subscriber C
  pub publisher_stopped : Bool

-- The kinds that an endpoint of the side receives; it sends the others.
abbrev pub receives : Side → Kind → Bool
receives local kind = is_uplink kind
receives cloud kind = not (is_uplink kind)

abbrev pub received : Side → List Kind
received local = state ∷ visualization ∷ connection ∷ factsheet ∷ []
received cloud = order ∷ instant_actions ∷ responses ∷ zone_set ∷ []

module _ {C : Type 0} where
  unfoldable pub new_end_point : ℕ → Side → TopicContext → EndPoint C
  new_end_point id side topic_template = record {
    id = id;
    side = side;
    subscriber = new_subscriber topic_template;
    publisher_stopped = false;
  }

  -- The chain of && of the Subscribe... calls.
  unfoldable pub subscribe_all : Mosquitto → ℕ → List Kind → Subscriber C → Client → Bool × Client
  subscribe_all mosq owner [] s client = (true, client)
  subscribe_all mosq owner (kind ∷ kinds) s client =
      let step = Subscriber.subscribe mosq owner kind s client in
      let rest = subscribe_all mosq owner kinds s step.1 in if step.0 then rest else (false, step.1)

  -- Init; the result, the endpoint and its client.
  unfoldable pub init : Mosquitto → EndPoint C → Client → Bool × EndPoint C × Client
  init mosq ep client =
      let step = Subscriber.init ep.subscriber in
      let ep' = record ep { subscriber = step.1 } in
      let subscribed = subscribe_all mosq ep.id (received ep.side) step.1 client in
      if step.0 then (subscribed.0, ep', subscribed.1) else (false, ep', client)

  unfoldable pub stop : EndPoint C → EndPoint C
  stop ep = record ep { subscriber = Subscriber.stop ep.subscriber; publisher_stopped = true }

  -- OnState and the others.
  unfoldable pub on : Kind → Option C → EndPoint C → Bool × EndPoint C
  on kind callback ep =
      let step = Subscriber.on kind callback ep.subscriber in
      if receives ep.side kind then (step.0, record ep { subscriber = step.1 }) else (false, ep)

  -- The overloads of Publish.
  unfoldable pub publish :
      Mosquitto → Serializer → TopicContext → Message → EndPoint C → Bool × List Sent
  publish mosq ser context message ep =
      if receives ep.side (kind_of message)
      then (false, [])
      else publish_kind mosq ser ep.publisher_stopped context message
