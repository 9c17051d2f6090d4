-- ===== src/Proxy.antt =====
-- VDA5050Proxy (src/VDA5050Proxy.cpp, include/syrius_orbit/mqtt/VDA5050Proxy.hpp): the life of the
-- two endpoints and the bridge between them. The mosquitto library is a parameter. Logging and the
-- threads of the network loops are not modelled: each method and each callback is one step.
pub mod Setup
pub mod States
pub mod Startup
pub mod Life
pub mod Opened
pub mod Serving
pub mod Extends
pub mod Sessions
use syrius_orbit_daemon.Common.{
  ℕ, suc, Bool, true, false, not, ◌&&◌, ◌||◌, Option, none, some, List, [], ◌∷◌, ◌++◌, Bytes,
  is_empty, if◌then◌else◌,
}
use syrius_orbit_daemon.Topic.{TopicContext, parse_topic_prefix}
use syrius_orbit_daemon.Config.{RuntimeConfig}
use syrius_orbit_daemon.Mqtt.Messages.{
  Kind, state, visualization, connection, factsheet, order, instant_actions, responses, zone_set,
}
use syrius_orbit_daemon.Mqtt.Client.{Mosquitto, Client}
use syrius_orbit_daemon.Mqtt.EndPoint
use syrius_orbit_daemon.Mqtt.EndPoint.{EndPoint, Side, new_end_point}

-- The callbacks that the program registers: the two bridges' and the event recorder's.
pub data Callback : Type 0 where
  forward_to_cloud forward_to_local record_event : Callback

-- What the calls of the library return: true for MOSQ_ERR_SUCCESS. The password and the username
-- are `none` where the code passes nullptr.
pub record Broker : Type 0 where
  pub mosquitto : Mosquitto
  pub reinitialise : Bytes → Bool
  pub username_pw_set : Option Bytes → Option Bytes → Bool
  pub connect : Bytes → ℕ → Bool
  pub loop_start : Bool

pub record Network : Type 0 where
  pub lib_init : Bool
  pub local_broker : Broker
  pub cloud_broker : Broker

-- `endpoints` counts the endpoints that were made, and names the next one.
pub record Proxy : Type 0 where
  pub config : RuntimeConfig
  pub initialized : Bool
  pub running : Bool
  pub mosquitto_initialized : Bool
  pub local_client : Client
  pub cloud_client : Client
  pub local_endpoint : Option (EndPoint Callback)
  pub cloud_endpoint : Option (EndPoint Callback)
  pub endpoints : ℕ

-- init.
unfoldable pub init : RuntimeConfig → Proxy → Bool × Proxy
init config p = (true, record p { config = config; initialized = true })

-- stop. The endpoints' own Stop comes before they are destroyed.
unfoldable pub stop : Proxy → Proxy
stop p = record p {
  local_endpoint = none;
  cloud_endpoint = none;
  mosquitto_initialized = false;
  running = false;
}

abbrev nonempty : Bytes → Option Bytes
nonempty s = if is_empty s then none else some s

unfoldable pub configure_client : Broker → Bytes → Bytes → Bytes → Bool
configure_client b client_id username password =
    if not (b.reinitialise client_id)
    then false
    else b.username_pw_set (nonempty username) (nonempty password)

abbrev pub configured : Network → RuntimeConfig → Bool
configured net c =
    configure_client net.local_broker c.mqtt_client_id c.mqtt_username c.mqtt_password
    && configure_client net.cloud_broker c.cloud_mqtt_client_id c.cloud_mqtt_username
        c.cloud_mqtt_password

-- The part of start behind the local endpoint's Init, on what that Init left; the result of the
-- cloud's loop_start and connect_async is only logged.
unfoldable pub finish_start : Network → Proxy → Bool × Proxy
finish_start net p = if not net.local_broker.loop_start then (false, stop p) else (
  true,
  record p { cloud_client = record p.cloud_client { connect_callback = true }; running = true },
)

-- The part of start behind lib_init.
unfoldable pub start_local : Network → TopicContext → Proxy → Bool × Proxy
start_local net topic_template p =
    let ep = new_end_point p.endpoints Side.local topic_template in
    let made = EndPoint.init net.local_broker.mosquitto ep p.local_client in
    let q = record p {
      local_client = made.2;
      local_endpoint = some made.1;
      endpoints = suc p.endpoints;
    } in
    if not (configured net p.config)
    then (false, stop p)
    else if not (net.local_broker.connect p.config.mqtt_host p.config.mqtt_port)
    then (false, stop p)
    else if not made.0
    then (false, stop q)
    else finish_start net q

abbrev pub start_at : Network → Option TopicContext → Proxy → Bool × Proxy
start_at net none p = (false, p)
start_at net (some topic_template) p =
    if not net.lib_init
    then (false, p)
    else start_local net topic_template (record p { mosquitto_initialized = true })

-- start.
unfoldable pub start : Network → Proxy → Bool × Proxy
start net p =
    if not p.initialized
    then (false, p)
    else if p.running
    then (true, p)
    else start_at net (parse_topic_prefix p.config.mqtt_topic_prefix) p

-- The chain of && of the On... calls of one bridge.
unfoldable pub register_all : List Kind → Callback → EndPoint Callback → Bool × EndPoint Callback
register_all [] callback ep = (true, ep)
register_all (kind ∷ kinds) callback ep =
    let step = EndPoint.on kind (some callback) ep in
    let rest = register_all kinds callback step.1 in if step.0 then rest else (false, step.1)

unfoldable pub bridge_local_to_cloud : EndPoint Callback → Bool × EndPoint Callback
bridge_local_to_cloud local_endpoint =
    register_all (state ∷ visualization ∷ connection ∷ factsheet ∷ []) forward_to_cloud
      local_endpoint

unfoldable pub bridge_cloud_to_local : EndPoint Callback → Bool × EndPoint Callback
bridge_cloud_to_local cloud_endpoint =
    register_all (order ∷ instant_actions ∷ responses ∷ zone_set ∷ []) forward_to_local
      cloud_endpoint

-- setup_bridge_callbacks on the two endpoints.
unfoldable pub setup_bridge_callbacks :
    EndPoint Callback → EndPoint Callback → Bool × EndPoint Callback × EndPoint Callback
setup_bridge_callbacks local_endpoint cloud_endpoint =
    let up = bridge_local_to_cloud local_endpoint in
    let down = bridge_cloud_to_local cloud_endpoint in
    if up.0 then (down.0, up.1, down.1) else (false, up.1, cloud_endpoint)

-- With the null tests of the two bridges; the cloud endpoint has just been made.
abbrev pub bridge : Option (EndPoint Callback) → EndPoint Callback → Proxy → Bool × Proxy
bridge none cloud_endpoint p = (false, p)
bridge (some local_endpoint) cloud_endpoint p =
    let (ok, up, down) = setup_bridge_callbacks local_endpoint cloud_endpoint in
    if ok
    then (true, record p { local_endpoint = some up; cloud_endpoint = some down })
    else (false, record p { local_endpoint = some up })

-- The connect callback with rc = MOSQ_ERR_SUCCESS and no cloud endpoint. The result says whether
-- on_cloud_connected_ is called.
unfoldable pub connect_cloud : Network → TopicContext → Proxy → Bool × Proxy
connect_cloud net topic_template p =
    let ep = new_end_point p.endpoints Side.cloud topic_template in
    let made = EndPoint.init net.cloud_broker.mosquitto ep p.cloud_client in
    let q = record p { cloud_client = made.2; endpoints = suc p.endpoints } in
    if made.0 then bridge p.local_endpoint made.1 q else (false, q)

abbrev pub connect_cloud_at :
    Network → Option TopicContext → Option (EndPoint Callback) → Proxy → Bool × Proxy
connect_cloud_at net none old p = (false, p)
connect_cloud_at net (some topic_template) (some ep) p = (false, p)
connect_cloud_at net (some topic_template) none p = connect_cloud net topic_template p

-- The connect callback of the cloud client, for the given success.
unfoldable pub on_cloud_connect : Network → Bool → Proxy → Bool × Proxy
on_cloud_connect net success p =
    if success && p.cloud_client.connect_callback
    then connect_cloud_at net (parse_topic_prefix p.config.mqtt_topic_prefix) p.cloud_endpoint p
    else (false, p)

abbrev pub new_proxy : RuntimeConfig → Proxy
new_proxy config = record {
  config = config;
  initialized = false;
  running = false;
  mosquitto_initialized = false;
  local_client = record { subscriptions = []; connect_callback = false };
  cloud_client = record { subscriptions = []; connect_callback = false };
  local_endpoint = none;
  cloud_endpoint = none;
  endpoints = 0;
}
