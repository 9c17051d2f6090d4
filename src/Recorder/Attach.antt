-- ===== src/Recorder/Attach.antt =====
-- Which endpoints the recorder registers its callbacks on, as Daemon::run (src/Daemon.cpp) builds it.
use syrius_orbit_daemon.Common.{
  ℕ, zero, suc, ◌≡◌, refl, sym, ap, ◌∙◌, subst, Bool, true, false, not, ◌||◌, Option, none, some,
  if_ind,
}
use syrius_orbit_daemon.Topic.{TopicContext, parse_topic_prefix}
use syrius_orbit_daemon.Mqtt.Subscriber
use syrius_orbit_daemon.Mqtt.EndPoint
use syrius_orbit_daemon.Mqtt.EndPoint.{EndPoint, Side, new_end_point}
use syrius_orbit_daemon.Proxy.{
  Callback, record_event, Network, Proxy, start, start_at, start_local, finish_start, stop,
  configured,
}
use syrius_orbit_daemon.Proxy.Setup.{with_uplink, with_downlink, running_at, running_at_self}
use syrius_orbit_daemon.Recorder.{Recorder, new_recorder, attach, attach_cloud, register}

-- `n` calls of attachCloud.
unfoldable pub reconnect : ℕ → Recorder × Proxy → Recorder × Proxy
reconnect zero s = s
reconnect (suc n) s = reconnect n (attach_cloud s)

pub attach_cloud-fixed :
    (r : Recorder) (p : Proxy)
    → (not r.cloud_ep || r.attached_cloud) ≡ true
    → attach_cloud (r, p) ≡ (r, p)
unfolding attach_cloud
attach_cloud-fixed r p h =
    if_ind {A = Recorder × Proxy} (λ x. x ≡ (r, p)) (not r.cloud_ep || r.attached_cloud) (λ _. refl)
      (λ n. absurd (cc (h, n)))

reconnect-fixed : (n : ℕ) (s : Recorder × Proxy) → attach_cloud s ≡ s → reconnect n s ≡ s
unfolding reconnect
reconnect-fixed zero s h = refl
reconnect-fixed (suc n) s h = ap (reconnect n) h ∙ reconnect-fixed n s h

-- The proxy with these endpoints.
abbrev pub with_endpoints : EndPoint Callback → EndPoint Callback → Proxy → Proxy
with_endpoints l c p = record p { local_endpoint = some l; cloud_endpoint = some c }

-- What attach leaves, where both endpoints are there.
abbrev pub attached : EndPoint Callback → EndPoint Callback → Proxy → Recorder × Proxy
attached l c p = (
  record { local_ep = true; cloud_ep = true; attached_cloud = true },
  with_endpoints (with_uplink record_event l) (with_downlink record_event c) p,
)

-- attach on a recorder that was just built.
unfoldable pub attach_new : Proxy → Recorder × Proxy
attach_new p = attach (new_recorder p, p)

attach-running :
    (l c : EndPoint Callback) (p : Proxy)
    → attach_new (with_endpoints (running_at Side.local l) (running_at Side.cloud c) p)
      ≡ attached (running_at Side.local l) (running_at Side.cloud c) p
unfolding attach_new attach new_recorder register attach_cloud EndPoint.on Subscriber.on
attach-running l c p = refl

-- A recorder that is built while both endpoints run registers one callback of its own, behind the
-- others, for every kind of message of either direction, and no more however often attachCloud is
-- called again.
pub attach-both :
    (n : ℕ) (l c : EndPoint Callback) (p : Proxy)
    → l.side ≡ Side.local
    → l.subscriber.stopped ≡ false
    → c.side ≡ Side.cloud
    → c.subscriber.stopped ≡ false
    → reconnect n (attach_new (with_endpoints l c p)) ≡ attached l c p
attach-both n l c p ls lr cs cr =
    let at : attach_new (with_endpoints l c p) ≡ attached l c p =
      subst (λ x. attach_new (with_endpoints x c p) ≡ attached x c p)
        (sym (running_at_self Side.local l ls lr))
        (subst
          (λ y.
            attach_new (with_endpoints (running_at Side.local l) y p)
            ≡ attached (running_at Side.local l) y p)
          (sym (running_at_self Side.cloud c cs cr)) (attach-running l c p)) in
    let (r, q) = attached l c p in
    ap (reconnect n) at ∙ reconnect-fixed n (r, q) (attach_cloud-fixed r q refl)

-- A result without a cloud endpoint.
abbrev pub NoCloud : Bool × Proxy → Type 0
NoCloud r = r.1.cloud_endpoint ≡ none

finish_start-NoCloud :
    (net : Network) (p : Proxy) → p.cloud_endpoint ≡ none → NoCloud (finish_start net p)
unfolding finish_start stop
finish_start-NoCloud net p h = if_ind NoCloud (not net.local_broker.loop_start) (λ _. refl) (λ _. h)

start_local-NoCloud :
    (net : Network) (t : TopicContext) (p : Proxy)
    → p.cloud_endpoint ≡ none
    → NoCloud (start_local net t p)
unfolding start_local stop
start_local-NoCloud net t p h =
    let made =
      EndPoint.init net.local_broker.mosquitto (new_end_point p.endpoints Side.local t)
        p.local_client in
    let q : Proxy = record p {
      local_client = made.2;
      local_endpoint = some made.1;
      endpoints = suc p.endpoints;
    } in
    if_ind NoCloud (not (configured net p.config)) (λ _. refl)
      λ _.
        if_ind NoCloud (not (net.local_broker.connect p.config.mqtt_host p.config.mqtt_port))
          (λ _. refl) λ _. if_ind NoCloud (not made.0) (λ _. refl) λ _. finish_start-NoCloud net q h

start_at-NoCloud :
    (net : Network) (t : Option TopicContext) (p : Proxy)
    → p.cloud_endpoint ≡ none
    → NoCloud (start_at net t p)
start_at-NoCloud net none p h = h
start_at-NoCloud net (some t) p h =
    if_ind NoCloud (not net.lib_init) (λ _. h)
      λ _. start_local-NoCloud net t (record p { mosquitto_initialized = true }) h

pub start-NoCloud : (net : Network) (p : Proxy) → p.cloud_endpoint ≡ none → NoCloud (start net p)
unfolding start
start-NoCloud net p h =
    if_ind NoCloud (not p.initialized) (λ _. h)
      λ _.
        if_ind NoCloud p.running (λ _. h)
          λ _. start_at-NoCloud net (parse_topic_prefix p.config.mqtt_topic_prefix) p h
