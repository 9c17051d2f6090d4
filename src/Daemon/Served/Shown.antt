-- ===== src/Daemon/Served/Shown.antt =====
-- From a message of the local broker to the read model: the running daemon (src/Daemon.cpp), and then a
-- cycle of the projection (src/projection).
use mathlib.Core.Option
use syrius_orbit_daemon.Common.{refl, ℕ, ◌≡◌, ap, Bool, true, some, List, [], Bytes}
use syrius_orbit_daemon.Codec.{Codec}
use syrius_orbit_daemon.Config.{RuntimeConfig}
use syrius_orbit_daemon.Topic.{TopicContext, parse_topic_prefix, parse_topic_context, build_filter}
use syrius_orbit_daemon.Db.Events.{Table}
use syrius_orbit_daemon.Mqtt.Messages.{Kind, suffix}
use syrius_orbit_daemon.Mqtt.Subscriber.Laws.{same_kind}
use syrius_orbit_daemon.Mqtt.Publisher.{Serializer}
use syrius_orbit_daemon.Mqtt.EndPoint.{EndPoint}
use syrius_orbit_daemon.Proxy.{Callback, Network}
use syrius_orbit_daemon.Recorder.{record_message}
use syrius_orbit_daemon.Migrator.{Database}
use syrius_orbit_daemon.Daemon.{Gaps, gateway_start}
use syrius_orbit_daemon.Daemon.Runs.{ready}
use syrius_orbit_daemon.Daemon.Handling.{deliver}
use syrius_orbit_daemon.Daemon.Served.{serving}
use syrius_orbit_daemon.Schema.Enums.{connection_state_name}
use syrius_orbit_daemon.Schema.Messages.{Connection}
use syrius_orbit_daemon.Db.Events.{Event}
use syrius_orbit_daemon.Db.Events.Exact.{IsScan}
use syrius_orbit_daemon.Db.Robots.{Robot, find_by_id}
use syrius_orbit_daemon.Mqtt.Messages.{connection, connection_message}
use syrius_orbit_daemon.Projection.{ReadModel, cycle}
use syrius_orbit_daemon.Recorder.{robot_name}
use syrius_orbit_daemon.Recorder.Rows.{IsRecorded}
use syrius_orbit_daemon.Recorder.Shown.{connection-recorded}
use syrius_orbit_daemon.Daemon.Handling.{Effects}
use syrius_orbit_daemon.Daemon.Served.Relays.{uplink-recorded}

module _ {D : Type 0} (scan : List Event → List Event) (c : Codec) (clock : ℕ → Bytes)
    (net : Network) (ser : Serializer) (config : RuntimeConfig) (db : Database D) (gaps : Gaps)
    (cs : List Bool) (t : TopicContext)
    (prefix : parse_topic_prefix config.mqtt_topic_prefix ≡ some t)
    (ok : (gateway_start net (ready config)).0 ≡ true) where
  -- In a new daemon whose gateway has started, after any connections of the cloud client from that start
  -- on, a connection message that the library hands to the local client shows in the next projection cycle under the
  -- manufacturer.serialNumber of its topic, with its connection state, on top of any log that the
  -- recorder wrote, whatever the read model held and whatever becomes of the publication to the cloud;
  -- no null or dangling pointer is followed. Topic and payload parse, the message can be read back from
  -- its JSON, and the library matches the topic with the filter of connections alone.
  pub connection-shown :
      (l : EndPoint Callback) (msg : Connection) (topic payload : Bytes) (context : TopicContext)
      (table : Table) (m : ReadModel)
      → IsScan scan
      → IsRecorded table
      → (serving net gaps config db cs).local_endpoint ≡ some l
      → c.parse_connection payload ≡ some msg
      → c.parse_connection (c.dump_connection msg) ≡ some msg
      → parse_topic_context t topic (suffix connection) ≡ some context
      → ((k : Kind)
          → net.local_broker.mosquitto.matches (build_filter t (suffix k)) topic
            ≡ same_kind k connection)
      → (e : Effects) × (deliver c clock net.cloud_broker.mosquitto ser
            (serving net gaps config db cs).cloud_endpoint
            net.local_broker.mosquitto
            (serving net gaps config db cs).local_client
            l
            (record { topic = some topic; payload = payload })
            ([], table)
          ≡ some e)
        × (r : Robot) × (find_by_id (robot_name context) (cycle scan c e.1 m).robots ≡ some r)
        × (r.connection_state ≡ connection_state_name msg.connection_state)
  connection-shown l msg topic payload context table m s recorded at_l read readable at match =
      let message = connection_message msg in
      let (sent, delivered) =
        uplink-recorded c clock net ser config db gaps cs t prefix ok l message topic payload
          context table at_l refl (ap (Option.map connection_message) read) at match in
      let shown = connection-recorded scan c clock context table m s recorded msg readable in
      ((sent, record_message c clock context message table), delivered, shown.0, shown.1, shown.2)
