-- ===== src/Proxy/Startup.antt =====
-- What VDA5050Proxy::start (src/VDA5050Proxy.cpp) leaves.
use syrius_orbit_daemon.Common.{
  suc, ◌≡◌, refl, sym, ap, subst, true, not, Option, none, some, if_ind, inl, inr, arith,
}
use syrius_orbit_daemon.Topic.{TopicContext, parse_topic_prefix}
use syrius_orbit_daemon.Mqtt.EndPoint
use syrius_orbit_daemon.Mqtt.EndPoint.{EndPoint, Side, new_end_point}
use syrius_orbit_daemon.Proxy.{
  Network, Proxy, start, start_at, start_local, finish_start, configured,
}
use syrius_orbit_daemon.Proxy.States.{Linked, IsDown, IsProxy, init-Fresh, Outcome, stop-Outcome}

finish_start-Outcome :
    (net : Network) (p : Proxy)
    → p.initialized ≡ true
    → p.mosquitto_initialized ≡ true
    → Linked p.local_endpoint p.cloud_endpoint
    → Outcome (finish_start net p)
unfolding finish_start
finish_start-Outcome net p i m l =
    if_ind Outcome (not net.local_broker.loop_start) (λ h. stop-Outcome p)
      (λ h. (inr (record { initialized = i; running = refl; library = m; linked = l }), refl))

start_local-Outcome :
    (net : Network) (t : TopicContext) (p : Proxy)
    → p.initialized ≡ true
    → p.mosquitto_initialized ≡ true
    → p.cloud_endpoint ≡ none
    → Outcome (start_local net t p)
unfolding start_local
start_local-Outcome net t p i m c =
    let fresh = init-Fresh net.local_broker.mosquitto p.endpoints Side.local t p.local_client in
    let made =
      EndPoint.init net.local_broker.mosquitto (new_end_point p.endpoints Side.local t)
        p.local_client in
    let q : Proxy = record p {
      local_client = made.2;
      local_endpoint = some made.1;
      endpoints = suc p.endpoints;
    } in
    let linked = subst (Linked (some made.1)) (sym c) (fresh.0, fresh.1) in
    if_ind Outcome (not (configured net p.config)) (λ h. stop-Outcome p)
      λ h.
        if_ind Outcome (not (net.local_broker.connect p.config.mqtt_host p.config.mqtt_port))
          (λ h. stop-Outcome p)
          λ h.
            if_ind Outcome (not made.0) (λ h. stop-Outcome q)
              λ h. finish_start-Outcome net q i m linked

start_at-Outcome :
    (net : Network) (t : Option TopicContext) (p : Proxy)
    → p.initialized ≡ true
    → IsDown p
    → Outcome (start_at net t p)
start_at-Outcome net none p i d = (inl d, sym d.running)
start_at-Outcome net (some t) p i d =
    if_ind Outcome (not net.lib_init) (λ h. (inl d, sym d.running))
      λ h. start_local-Outcome net t (record p { mosquitto_initialized = true }) i refl d.no_cloud

-- start leaves a stopped proxy stopped or makes it run, and returns true exactly in the second case;
-- a proxy that runs is left alone, with the result true.
pub start-Outcome : (net : Network) (p : Proxy) → IsProxy p → Outcome (start net p)
unfolding start
start-Outcome net p (inr u) =
    if_ind Outcome (not p.initialized) (λ h. absurd (cc (ap not u.initialized, h)))
      λ h. if_ind Outcome p.running (λ r. (inr u, sym u.running)) λ r. absurd (cc (u.running, r))
start-Outcome net p (inl d) =
    if_ind Outcome (not p.initialized) (λ h. (inl d, sym d.running))
      λ h.
        if_ind Outcome p.running (λ r. (inl d, ground arith))
          λ r.
            start_at-Outcome net (parse_topic_prefix p.config.mqtt_topic_prefix) p (ground arith) d
