-- ===== src/Daemon/Served/Relays.antt =====
-- What the running daemon (src/Daemon.cpp) does with one message of either direction.
use syrius_orbit_daemon.Common.{
  ℕ, ◌≡◌, ap, ◌∙◌, subst, Bool, true, false, not, some, is_some, List, [], ◌∷◌, map, Bytes,
  if◌then◌else◌, arith,
}
use syrius_orbit_daemon.Codec.{Codec}
use syrius_orbit_daemon.Config.{RuntimeConfig}
use syrius_orbit_daemon.Topic.{TopicContext, parse_topic_prefix, parse_topic_context, build_filter}
use syrius_orbit_daemon.Topic.Prefix.{parse_topic_prefix_iff}
use syrius_orbit_daemon.Db.Events.{Table}
use syrius_orbit_daemon.Mqtt.Messages.{Kind, Message, kind_of, is_uplink, suffix, qos, parse}
use syrius_orbit_daemon.Mqtt.Subscriber.Laws.{same_kind}
use syrius_orbit_daemon.Mqtt.Publisher.{Serializer, Sent, serialize}
use syrius_orbit_daemon.Mqtt.EndPoint.{EndPoint, Side, received}
use syrius_orbit_daemon.Mqtt.EndPoint.Forward.{sent_as, entry}
use syrius_orbit_daemon.Proxy.{Callback, Network}
use syrius_orbit_daemon.Proxy.Opened.{IsOpen}
use syrius_orbit_daemon.Recorder.{record_message}
use syrius_orbit_daemon.Migrator.{Database}
use syrius_orbit_daemon.Daemon.{Gaps, gateway_start}
use syrius_orbit_daemon.Daemon.Runs.{ready}
use syrius_orbit_daemon.Daemon.Handling.{handle, deliver}
use syrius_orbit_daemon.Daemon.Served.{serving, recorder_held, serving-IsWired}
use syrius_orbit_daemon.Daemon.Wired.{IsCloud}
use syrius_orbit_daemon.Daemon.Served.Effects.{
  handle-recorded, handle-uplink, handle-downlink, deliver-opened,
}

module _ {D : Type 0} (c : Codec) (clock : ℕ → Bytes) (net : Network) (ser : Serializer)
    (config : RuntimeConfig) (db : Database D) (gaps : Gaps) (cs : List Bool) (t : TopicContext)
    (prefix : parse_topic_prefix config.mqtt_topic_prefix ≡ some t)
    (ok : (gateway_start net (ready config)).0 ≡ true) where
  -- The message is recorded, whatever becomes of its publication.
  pub uplink-recorded :
      (l : EndPoint Callback) (message : Message) (topic payload : Bytes) (context : TopicContext)
      (table : Table)
      → (serving net gaps config db cs).local_endpoint ≡ some l
      → is_uplink (kind_of message) ≡ true
      → parse c (kind_of message) payload ≡ some message
      → parse_topic_context t topic (suffix (kind_of message)) ≡ some context
      → ((k : Kind)
          → net.local_broker.mosquitto.matches (build_filter t (suffix k)) topic
            ≡ same_kind k (kind_of message))
      → (sent : List Sent) × (deliver c clock net.cloud_broker.mosquitto ser
            (serving net gaps config db cs).cloud_endpoint
            net.local_broker.mosquitto
            (serving net gaps config db cs).local_client
            l
            (record { topic = some topic; payload = payload })
            ([], table)
          ≡ some (sent, record_message c clock context message table))
  uplink-recorded l message topic payload context table at_l is_up read at match =
      let p = serving net gaps config db cs in
      let w = serving-IsWired net gaps config db cs t prefix ok in
      let same : w.local_end ≡ l = ground arith in
      (
        _,
        deliver-opened c clock ser t message topic payload context read at net.local_broker
              net.cloud_broker Side.local p.local_client l p.cloud_endpoint ([], table)
              (w.subscribed
                ∙ ap (λ (x : EndPoint Callback). map (entry x.id t) (received Side.local)) same)
              is_up match
            ∙ handle-recorded c clock ser t message topic payload context read at net.cloud_broker l
                p.cloud_endpoint w.up table w.uplink
                (subst (IsOpen Side.local t w.up []) same w.opened) is_up,
      )

  -- In a new daemon whose gateway has started, after any connections of the cloud client from that start
  -- on, whether they succeeded or not, an uplink message (state, visualization, connection, factsheet) that the library
  -- hands to the local client is recorded exactly once, and is sent to the cloud broker exactly once,
  -- under the topic it came with, with the quality of service of its kind and not retained, if there is a
  -- cloud endpoint, and not at all otherwise; no null or dangling pointer is followed. Its topic and its
  -- payload parse, the library matches the topic with the filter of its kind alone, and it can be
  -- serialized and is accepted by the cloud broker.
  pub uplink-handled :
      (l : EndPoint Callback) (message : Message) (topic payload out : Bytes)
      (context : TopicContext) (table : Table)
      → (serving net gaps config db cs).local_endpoint ≡ some l
      → is_uplink (kind_of message) ≡ true
      → parse c (kind_of message) payload ≡ some message
      → parse_topic_context t topic (suffix (kind_of message)) ≡ some context
      → ((k : Kind)
          → net.local_broker.mosquitto.matches (build_filter t (suffix k)) topic
            ≡ same_kind k (kind_of message))
      → serialize ser message ≡ some out
      → net.cloud_broker.mosquitto.publish topic out (qos (kind_of message)) false ≡ true
      → let cloud = (serving net gaps config db cs).cloud_endpoint in
        deliver c clock net.cloud_broker.mosquitto ser cloud net.local_broker.mosquitto
          (serving net gaps config db cs).local_client
          l
          (record { topic = some topic; payload = payload })
          ([], table)
        ≡ some (
          if is_some cloud then sent_as topic out message ∷ [] else [],
          record_message c clock context message table,
        )
  uplink-handled l message topic payload out context table at_l is_up read at match written
        accepted =
      let p = serving net gaps config db cs in
      let w = serving-IsWired net gaps config db cs t prefix ok in
      let of_prefix = (parse_topic_prefix_iff config.mqtt_topic_prefix t).0 prefix in
      let same : w.local_end ≡ l = ground arith in
      let here = deliver-opened c clock ser t message topic payload context read at in
      here net.local_broker net.cloud_broker Side.local p.local_client l p.cloud_endpoint
        ([], table)
        (w.subscribed
          ∙ ap (λ (x : EndPoint Callback). map (entry x.id t) (received Side.local)) same)
        is_up match
      ∙ handle-uplink c clock net ser t message topic payload out context read at
          of_prefix.interface_ne of_prefix.version_ne written l p.cloud_endpoint w.up
          (recorder_held net gaps config db) table w.uplink
          (subst (IsOpen Side.local t w.up []) same w.opened) w.cloud is_up accepted

  -- In a new daemon whose gateway has started, after any connections of the cloud client from that start
  -- on, a downlink message (order, instantActions, responses, zoneSet) that the library hands to the cloud
  -- client is sent to the local broker exactly once, under the topic it came with, with the quality of
  -- service of its kind and not retained, without following a null pointer. It is recorded once if the
  -- cloud endpoint was there when the recorder was built, and else the table of events stays as it was.
  -- There is a cloud endpoint, and the client has its subscriptions and no others; topic and payload parse,
  -- the library matches the topic with the filter of the kind alone, and the message can be serialized and
  -- is accepted by the local broker.
  pub downlink-handled :
      (e : EndPoint Callback) (message : Message) (topic payload out : Bytes)
      (context : TopicContext) (table : Table)
      → (serving net gaps config db cs).cloud_endpoint ≡ some e
      → is_uplink (kind_of message) ≡ false
      → parse c (kind_of message) payload ≡ some message
      → parse_topic_context t topic (suffix (kind_of message)) ≡ some context
      → (serving net gaps config db cs).cloud_client.subscriptions
        ≡ map (entry e.id t) (received Side.cloud)
      → ((k : Kind)
          → net.cloud_broker.mosquitto.matches (build_filter t (suffix k)) topic
            ≡ same_kind k (kind_of message))
      → serialize ser message ≡ some out
      → net.local_broker.mosquitto.publish topic out (qos (kind_of message)) false ≡ true
      → let p = serving net gaps config db cs in
        deliver c clock net.local_broker.mosquitto ser p.local_endpoint net.cloud_broker.mosquitto
          p.cloud_client e
          (record { topic = some topic; payload = payload })
          ([], table)
        ≡ some (
          sent_as topic out message ∷ [],
          if recorder_held net gaps config db
              then record_message c clock context message table
              else table,
        )
  downlink-handled e message topic payload out context table at_e down read at subscribed match
        written accepted =
      let p = serving net gaps config db cs in
      let w = serving-IsWired net gaps config db cs t prefix ok in
      let held = recorder_held net gaps config db in
      let of_prefix = (parse_topic_prefix_iff config.mqtt_topic_prefix t).0 prefix in
      let here = deliver-opened c clock ser t message topic payload context read at in
      here net.cloud_broker net.local_broker Side.cloud p.cloud_client e p.local_endpoint
        ([], table) subscribed (ap not down) match
      ∙ (ap
            (λ o.
              handle c clock net.local_broker.mosquitto ser o (kind_of message) topic payload
                e.subscriber ([], table))
            w.at_local
          ∙ handle-downlink c clock net ser t message topic payload out context read at
              of_prefix.interface_ne of_prefix.version_ne written w.local_end e w.up held table
              w.opened (subst (IsCloud t held) at_e w.cloud) down accepted)
