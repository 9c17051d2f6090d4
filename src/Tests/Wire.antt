-- ===== src/Tests/Wire.antt =====
-- Endpoints, callbacks and the bridge.
use syrius_orbit_daemon.Common.{◌≡◌, refl, false, some, [], Bytes, text, ◌==◌}
use syrius_orbit_daemon.Json.{Members, null, number, object, member, end}
use syrius_orbit_daemon.Mqtt.Messages.{connection}
use syrius_orbit_daemon.Mqtt.Client.{new_client}
use syrius_orbit_daemon.Mqtt.Subscriber
use syrius_orbit_daemon.Mqtt.Subscriber.{
  Subscriber, new_subscriber, callbacks, on, stop, dispatch, subscribe,
}
use syrius_orbit_daemon.Mqtt.Subscriber.Laws.{stop_final}
use syrius_orbit_daemon.Mqtt.Prune.{
  prune_members, prune_top_level_fields, at, keep_if, is_kept, prune_lem,
}
use syrius_orbit_daemon.Mqtt.EndPoint.{EndPoint, Side, new_end_point}
use syrius_orbit_daemon.Config.{default_config}
use syrius_orbit_daemon.Proxy.{Callback, record_event, new_proxy}
use syrius_orbit_daemon.Schema.FactSheet.{MaximumArrayLengths}
use syrius_orbit_daemon.Schema.FactSheet.ArrayLengths.{no_lengths, from_json, to_json}
use syrius_orbit_daemon.Schema.FactSheet.ArrayLengths.RoundTrip.{from_json-to_json}
use syrius_orbit_daemon.Recorder.Attach.{
  reconnect, attach_new, attached, with_endpoints, attach-both,
}
use syrius_orbit_daemon.Tests.Data.{template, mosquitto}

abbrev members : Members
members = member (text "maps") null (member (text "headerId") (number 4) end)

prune_lem_example :
    (at (text "headerId") (prune_members members) ≡ keep_if is_kept (at (text "headerId") members))
    × (prune_top_level_fields (prune_top_level_fields (object members))
        ≡ prune_top_level_fields (object members))
unfolding ◌==◌
prune_lem_example = prune_lem (text "headerId") members ((refl, tt), (tt, tt))

abbrev fresh : Subscriber Callback
fresh = new_subscriber template

stop_final_example :
    (on connection (some record_event) (stop fresh) ≡ (false, stop fresh))
    × (Subscriber.init (stop fresh) ≡ (false, stop fresh))
    × (subscribe mosquitto 0 connection (stop fresh) new_client ≡ (false, new_client))
    × (dispatch connection (text "vda5050/v3/acme/7/connection") (stop fresh) ≡ [])
stop_final_example =
    stop_final mosquitto 0 connection (some record_event) (text "vda5050/v3/acme/7/connection")
      fresh new_client

abbrev local_side : EndPoint Callback
local_side = new_end_point 0 Side.local template

abbrev cloud_side : EndPoint Callback
cloud_side = new_end_point 1 Side.cloud template

attach-both_example :
    reconnect 2 (attach_new (with_endpoints local_side cloud_side (new_proxy default_config)))
    ≡ attached local_side cloud_side (new_proxy default_config)
unfolding new_end_point new_subscriber
attach-both_example =
    attach-both 2 local_side cloud_side (new_proxy default_config) refl refl refl refl

-- A connection message that comes in on the local side.
abbrev topic : Bytes
topic = text "vda5050/v3/acme/7/connection"

abbrev lengths : MaximumArrayLengths
lengths = record no_lengths { order_nodes = some 10; state_errors = some 3 }

from_json-to_json_example : from_json (to_json lengths) ≡ some lengths
from_json-to_json_example = from_json-to_json lengths
