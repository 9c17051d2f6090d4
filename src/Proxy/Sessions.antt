-- ===== src/Proxy/Sessions.antt =====
-- What becomes of the subscriptions of the two clients over a proxy's life.
use syrius_orbit_daemon.Common.{
  suc, Bool, true, not, ◌&&◌, Option, none, some, List, [], ◌∷◌, if_ind,
}
use syrius_orbit_daemon.Topic.{TopicContext, parse_topic_prefix}
use syrius_orbit_daemon.Mqtt.EndPoint
use syrius_orbit_daemon.Mqtt.EndPoint.{EndPoint, Side, new_end_point, received, subscribe_all}
use syrius_orbit_daemon.Proxy.{
  Callback, Network, Proxy, init, start, start_at, start_local, finish_start, stop, configured,
  on_cloud_connect, connect_cloud_at, connect_cloud, bridge, setup_bridge_callbacks,
}
use syrius_orbit_daemon.Proxy.Life.{
  Event, call_init, call_start, call_stop, cloud_connected, step, live,
}
use syrius_orbit_daemon.Proxy.Extends.{Extends, Extends-refl, Extends-trans, init-Extends}

-- Both clients of a proxy.
abbrev pub Keeps : Proxy → Proxy → Type 0
Keeps p q = Extends p.local_client q.local_client × Extends p.cloud_client q.cloud_client

Keeps-refl : (p : Proxy) → Keeps p p
Keeps-refl p = (Extends-refl p.local_client, Extends-refl p.cloud_client)

stop-Keeps : (p q : Proxy) → Keeps p q → Keeps p (stop q)
unfolding stop
stop-Keeps p q k = k

-- What a step that returns a result leaves.
abbrev KeepsIn : Proxy → Bool × Proxy → Type 0
KeepsIn p r = Keeps p r.1

finish_start-Keeps : (net : Network) (p q : Proxy) → Keeps p q → Keeps p (finish_start net q).1
unfolding finish_start
finish_start-Keeps net p q k =
    if_ind (KeepsIn p) (not net.local_broker.loop_start) (λ _. stop-Keeps p q k) (λ _. k)

start_local-Keeps : (net : Network) (t : TopicContext) (p : Proxy) → Keeps p (start_local net t p).1
unfolding start_local
start_local-Keeps net t p =
    let ep = new_end_point p.endpoints Side.local t in
    let made = EndPoint.init net.local_broker.mosquitto ep p.local_client in
    let q : Proxy = record p {
      local_client = made.2;
      local_endpoint = some made.1;
      endpoints = suc p.endpoints;
    } in
    let k : Keeps p q =
      (init-Extends net.local_broker.mosquitto ep p.local_client, Extends-refl p.cloud_client) in
    let kept = stop-Keeps p p (Keeps-refl p) in
    if_ind (KeepsIn p) (not (configured net p.config)) (λ _. kept)
      λ _.
        if_ind (KeepsIn p) (not (net.local_broker.connect p.config.mqtt_host p.config.mqtt_port))
          (λ _. kept)
          λ _.
            if_ind (KeepsIn p) (not made.0) (λ _. stop-Keeps p q k)
              λ _. finish_start-Keeps net p q k

start_at-Keeps :
    (net : Network) (t : Option TopicContext) (p : Proxy) → Keeps p (start_at net t p).1
start_at-Keeps net none p = Keeps-refl p
start_at-Keeps net (some t) p =
    if_ind (KeepsIn p) (not net.lib_init) (λ _. Keeps-refl p)
      λ _. start_local-Keeps net t (record p { mosquitto_initialized = true })

start-Keeps : (net : Network) (p : Proxy) → Keeps p (start net p).1
unfolding start
start-Keeps net p =
    if_ind (KeepsIn p) (not p.initialized) (λ _. Keeps-refl p)
      λ _.
        if_ind (KeepsIn p) p.running (λ _. Keeps-refl p)
          λ _. start_at-Keeps net (parse_topic_prefix p.config.mqtt_topic_prefix) p

bridge-Keeps :
    (o : Option (EndPoint Callback)) (c : EndPoint Callback) (p q : Proxy)
    → Keeps p q
    → Keeps p (bridge o c q).1
bridge-Keeps none c p q k = k
bridge-Keeps (some l) c p q k = if_ind (KeepsIn p) (setup_bridge_callbacks l c).0 (λ _. k) (λ _. k)

connect_cloud-Keeps :
    (net : Network) (t : TopicContext) (p : Proxy) → Keeps p (connect_cloud net t p).1
unfolding connect_cloud
connect_cloud-Keeps net t p =
    let ep = new_end_point p.endpoints Side.cloud t in
    let made = EndPoint.init net.cloud_broker.mosquitto ep p.cloud_client in
    let q : Proxy = record p { cloud_client = made.2; endpoints = suc p.endpoints } in
    let k : Keeps p q =
      (Extends-refl p.local_client, init-Extends net.cloud_broker.mosquitto ep p.cloud_client) in
    if_ind (KeepsIn p) made.0 (λ _. bridge-Keeps p.local_endpoint made.1 p q k) (λ _. k)

connect_cloud_at-Keeps :
    (net : Network) (t : Option TopicContext) (o : Option (EndPoint Callback)) (p : Proxy)
    → Keeps p (connect_cloud_at net t o p).1
connect_cloud_at-Keeps net none o p = Keeps-refl p
connect_cloud_at-Keeps net (some t) (some ep) p = Keeps-refl p
connect_cloud_at-Keeps net (some t) none p = connect_cloud-Keeps net t p

on_cloud_connect-Keeps :
    (net : Network) (success : Bool) (p : Proxy) → Keeps p (on_cloud_connect net success p).1
unfolding on_cloud_connect
on_cloud_connect-Keeps net success p =
    if_ind (KeepsIn p) (success && p.cloud_client.connect_callback)
      (λ _.
        connect_cloud_at-Keeps net (parse_topic_prefix p.config.mqtt_topic_prefix) p.cloud_endpoint
          p)
      (λ _. Keeps-refl p)

step-Keeps : (e : Event) (p : Proxy) → Keeps p (step e p)
unfolding init
step-Keeps (call_init config) p = Keeps-refl p
step-Keeps (call_start net) p = start-Keeps net p
step-Keeps call_stop p = stop-Keeps p p (Keeps-refl p)
step-Keeps (cloud_connected net success) p = on_cloud_connect-Keeps net success p

-- No sequence of calls and connection events removes a subscription from either client: what an
-- endpoint subscribed stays registered when the endpoint is stopped and destroyed, and is there after
-- the next start too.
pub live-Keeps : (events : List Event) (p : Proxy) → Keeps p (live events p)
unfolding live
live-Keeps [] p = Keeps-refl p
live-Keeps (e ∷ events) p =
    let q = step e p in
    let (l, c) = step-Keeps e p in
    let (l', c') = live-Keeps events q in
    (
      Extends-trans p.local_client q.local_client (live events q).local_client l l',
      Extends-trans p.cloud_client q.cloud_client (live events q).cloud_client c c',
    )
