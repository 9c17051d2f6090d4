-- ===== src/Mqtt/Publisher.antt =====
-- VDA5050Publisher (include/syrius_orbit/mqtt/VDA5050Publisher.hpp) and TypedPublisher::Publish
-- (include/syrius_orbit/mqtt/TypedPublisher.hpp). What the process sends is the list of calls of
-- MqttPublisher::Publish that the broker accepted.
use syrius_orbit_daemon.Common.{
  ℕ, Bool, true, false, Option, none, some, List, [], ◌∷◌, Bytes, is_empty, if◌then◌else◌,
}
use syrius_orbit_daemon.Json.{Json}
use syrius_orbit_daemon.Topic.{TopicContext, build_topic}
use syrius_orbit_daemon.Mqtt.Messages.{Message, kind_of, suffix, qos}
use syrius_orbit_daemon.Mqtt.Client.{Mosquitto, publish}
use syrius_orbit_daemon.Mqtt.Prune.{prune_top_level_fields}

-- nlohmann/json: `to_json` is `payload_json = value`, `dump` is `payload_json.dump()`; each is
-- `none` where it throws.
pub record Serializer : Type 0 where
  pub to_json : Message → Option Json
  pub dump : Json → Option Bytes

-- One accepted call.
pub record Sent : Type 0 where
  pub topic : Bytes
  pub payload : Bytes
  pub qos : ℕ
  pub retain : Bool

abbrev prune_and_dump : Serializer → Option Json → Option Bytes
prune_and_dump ser none = none
prune_and_dump ser (some json) = ser.dump (prune_top_level_fields json)

abbrev pub serialize : Serializer → Message → Option Bytes
serialize ser message = prune_and_dump ser (ser.to_json message)

-- The call of MqttPublisher::Publish, on the payload.
unfoldable pub send : Mosquitto → Bytes → ℕ → Bool → Option Bytes → Bool × List Sent
send mosq topic level retain none = (false, [])
send mosq topic level retain (some payload) =
    let sent : Sent = record { topic = topic; payload = payload; qos = level; retain = retain } in
    if publish mosq topic payload level retain then (true, sent ∷ []) else (false, [])

-- TypedPublisher::Publish.
unfoldable pub typed_publish :
    Mosquitto → Serializer → Bytes → Message → ℕ → Bool → Bool × List Sent
typed_publish mosq ser topic message level retain =
    if is_empty topic then (false, []) else send mosq topic level retain (serialize ser message)

unfoldable pub publish_at :
    Mosquitto → Serializer → Option Bytes → Message → ℕ → Bool → Bool × List Sent
publish_at mosq ser none message level retain = (false, [])
publish_at mosq ser (some topic) message level retain =
    typed_publish mosq ser topic message level retain

-- VDA5050Publisher's template `publish`; `stopped` is stopped_.
unfoldable pub publish_message :
    Mosquitto → Serializer → Bool → TopicContext → Bytes → Message → ℕ → Bool → Bool × List Sent
publish_message mosq ser stopped context suffix message level retain =
    if stopped
    then (false, [])
    else publish_at mosq ser (build_topic context suffix) message level retain

-- The overloads of VDA5050Publisher::Publish.
unfoldable pub publish_kind :
    Mosquitto → Serializer → Bool → TopicContext → Message → Bool × List Sent
publish_kind mosq ser stopped context message =
    publish_message mosq ser stopped context (suffix (kind_of message)) message
      (qos (kind_of message)) false
