-- ===== src/Proxy/Life.antt =====
-- A proxy over any sequence of calls and connection events.
use syrius_orbit_daemon.Common.{
  ℕ, suc, ◌+◌, ◌≡◌, refl, subst, Bool, true, ◌&&◌, Option, none, some, List, [], ◌∷◌, if_ind, inl,
  inr,
}
use syrius_orbit_daemon.Topic.{TopicContext, parse_topic_prefix}
use syrius_orbit_daemon.Config.{RuntimeConfig}
use syrius_orbit_daemon.Mqtt.Client.{Client}
use syrius_orbit_daemon.Mqtt.EndPoint
use syrius_orbit_daemon.Mqtt.EndPoint.{EndPoint, Side, new_end_point}
use syrius_orbit_daemon.Proxy.{
  Callback, forward_to_cloud, forward_to_local, Network, Proxy, init, start, stop, on_cloud_connect,
  connect_cloud_at, connect_cloud, bridge, new_proxy,
}
use syrius_orbit_daemon.Proxy.Setup.{with_uplink, with_downlink, setup_bridge_callbacks-running}
use syrius_orbit_daemon.Proxy.States.{
  forwards-append, Uplinks, Downlinks, Runs, Linked, IsUp, IsProxy, init-Fresh, stop-IsDown,
}
use syrius_orbit_daemon.Proxy.Startup.{start-Outcome}

Uplinks-with_uplink :
    (n : ℕ) (ep : EndPoint Callback)
    → Uplinks n ep
    → Uplinks (n + 1) (with_uplink forward_to_cloud ep)
Uplinks-with_uplink n ep (a, b, c, d) = simp (forwards-append, a, b, c, d) (refl, refl, refl, refl)

Downlinks-with_downlink :
    (n : ℕ) (ep : EndPoint Callback)
    → Downlinks n ep
    → Downlinks (n + 1) (with_downlink forward_to_local ep)
Downlinks-with_downlink n ep (a, b, c, d) =
    simp (forwards-append, a, b, c, d) (refl, refl, refl, refl)

bridge-IsUp :
    (l c : EndPoint Callback) (p : Proxy)
    → p.initialized ≡ true
    → p.running ≡ true
    → p.mosquitto_initialized ≡ true
    → Runs Side.local l
    → Uplinks 0 l
    → Runs Side.cloud c
    → Downlinks 0 c
    → IsUp (bridge (some l) c p).1
bridge-IsUp l c p i r m lr u cr d =
    let up : IsUp (record p {
      local_endpoint = some (with_uplink forward_to_cloud l);
      cloud_endpoint = some (with_downlink forward_to_local c);
    }) =
      record {
        initialized = i;
        running = r;
        library = m;
        linked = (lr, (cr, Uplinks-with_uplink 0 l u, Downlinks-with_downlink 0 c d));
      } in
    rw (setup_bridge_callbacks-running l c lr.0 lr.1 cr.0 cr.1) up

-- The cloud's client and the counter play no part.
with_cloud_client-IsProxy :
    (client : Client) (n : ℕ) (p : Proxy)
    → IsProxy p
    → IsProxy (record p { cloud_client = client; endpoints = n })
with_cloud_client-IsProxy client n p (inl d) = inl (record {
  running = d.running;
  library = d.library;
  no_local = d.no_local;
  no_cloud = d.no_cloud;
})
with_cloud_client-IsProxy client n p (inr u) = inr (record {
  initialized = u.initialized;
  running = u.running;
  library = u.library;
  linked = u.linked;
})

bridge-IsProxy :
    (o : Option (EndPoint Callback)) (c : EndPoint Callback) (p : Proxy)
    → p.local_endpoint ≡ o
    → p.cloud_endpoint ≡ none
    → Runs Side.cloud c
    → Downlinks 0 c
    → IsProxy p
    → IsProxy (bridge o c p).1
bridge-IsProxy none c p lo co cr d u = u
bridge-IsProxy (some l) c p lo co cr d (inl down) = absurd (cc (lo, down.no_local))
bridge-IsProxy (some l) c p lo co cr d (inr up) =
    let at_l : Linked (some l) p.cloud_endpoint =
      subst (λ o. Linked o p.cloud_endpoint) lo up.linked in
    let (lr, u) : Linked (some l) none = subst (Linked (some l)) co at_l in
    inr (bridge-IsUp l c p up.initialized up.running up.library lr u cr d)

connect_cloud-IsProxy :
    (net : Network) (t : TopicContext) (p : Proxy)
    → p.cloud_endpoint ≡ none
    → IsProxy p
    → IsProxy (connect_cloud net t p).1
unfolding connect_cloud
connect_cloud-IsProxy net t p c u =
    let made =
      EndPoint.init net.cloud_broker.mosquitto (new_end_point p.endpoints Side.cloud t)
        p.cloud_client in
    let q : Proxy = record p { cloud_client = made.2; endpoints = suc p.endpoints } in
    let fresh = init-Fresh net.cloud_broker.mosquitto p.endpoints Side.cloud t p.cloud_client in
    let kept = with_cloud_client-IsProxy made.2 (suc p.endpoints) p u in
    if_ind {A = Bool × Proxy} (λ r. IsProxy r.1) made.0
      (λ h. bridge-IsProxy p.local_endpoint made.1 q refl c fresh.0 fresh.2 kept) (λ h. kept)

connect_cloud_at-IsProxy :
    (net : Network) (t : Option TopicContext) (o : Option (EndPoint Callback)) (p : Proxy)
    → p.cloud_endpoint ≡ o
    → IsProxy p
    → IsProxy (connect_cloud_at net t o p).1
connect_cloud_at-IsProxy net none o p c u = u
connect_cloud_at-IsProxy net (some t) (some ep) p c u = u
connect_cloud_at-IsProxy net (some t) none p c u = connect_cloud-IsProxy net t p c u

on_cloud_connect-IsProxy :
    (net : Network) (success : Bool) (p : Proxy)
    → IsProxy p
    → IsProxy (on_cloud_connect net success p).1
unfolding on_cloud_connect
on_cloud_connect-IsProxy net success p u =
    if_ind {A = Bool × Proxy} (λ r. IsProxy r.1) (success && p.cloud_client.connect_callback)
      (λ h.
        connect_cloud_at-IsProxy net (parse_topic_prefix p.config.mqtt_topic_prefix)
          p.cloud_endpoint p refl u)
      (λ h. u)

init-IsProxy : (config : RuntimeConfig) (p : Proxy) → IsProxy p → IsProxy (init config p).1
unfolding init
init-IsProxy config p (inl d) = inl (record {
  running = d.running;
  library = d.library;
  no_local = d.no_local;
  no_cloud = d.no_cloud;
})
init-IsProxy config p (inr u) =
    inr (record { initialized = refl; running = u.running; library = u.library; linked = u.linked })

-- The calls and events of a proxy's life, in any order.
pub data Event : Type 0 where
  call_init : RuntimeConfig → Event
  call_start : Network → Event
  call_stop : Event
  cloud_connected : Network → Bool → Event

abbrev pub step : Event → Proxy → Proxy
step (call_init config) p = (init config p).1
step (call_start net) p = (start net p).1
step call_stop p = stop p
step (cloud_connected net success) p = (on_cloud_connect net success p).1

unfoldable pub live : List Event → Proxy → Proxy
live [] p = p
live (e ∷ events) p = live events (step e p)

step-IsProxy : (e : Event) (p : Proxy) → IsProxy p → IsProxy (step e p)
step-IsProxy (call_init config) p u = init-IsProxy config p u
step-IsProxy (call_start net) p u = (start-Outcome net p u).0
step-IsProxy call_stop p u = inl (stop-IsDown p)
step-IsProxy (cloud_connected net success) p u = on_cloud_connect-IsProxy net success p u

live-keeps : (events : List Event) (p : Proxy) → IsProxy p → IsProxy (live events p)
unfolding live
live-keeps [] p u = u
live-keeps (e ∷ events) p u = live-keeps events (step e p) (step-IsProxy e p u)

-- After any sequence of calls and connection events, in any order and with any answers of the library,
-- a proxy is stopped, without endpoints, or runs with a local endpoint; and then either it has no
-- cloud endpoint and forwards nothing, or it has one and every kind of message of either direction
-- is forwarded by exactly one callback.
pub live-IsProxy :
    (events : List Event) (config : RuntimeConfig) → IsProxy (live events (new_proxy config))
live-IsProxy events config =
    live-keeps events (new_proxy config)
      (inl (record { running = refl; library = refl; no_local = refl; no_cloud = refl }))
