-- ===== src/Daemon/Runs.antt =====
-- How a run of the daemon ends.
use syrius_orbit_daemon.Common.{
  not-false, ℕ, suc, ◌≡◌, refl, sym, ap, ◌∙◌, Bool, true, false, not, ◌&&◌, ◌||◌, Option, none,
  some, is_some, List, [], ◌∷◌, Bytes, if◌then◌else◌, if_ind, inl, inr,
}
use syrius_orbit_daemon.Topic.{TopicContext, parse_topic_prefix}
use syrius_orbit_daemon.Config.{RuntimeConfig}
use syrius_orbit_daemon.Mqtt.EndPoint
use syrius_orbit_daemon.Mqtt.EndPoint.{EndPoint, Side, new_end_point}
use syrius_orbit_daemon.Proxy
use syrius_orbit_daemon.Proxy.{
  Proxy, Network, Callback, bridge, connect_cloud, connect_cloud_at, setup_bridge_callbacks,
  new_proxy,
}
use syrius_orbit_daemon.Proxy.States.{IsProxy, IsDown, Outcome, stop-IsDown}
use syrius_orbit_daemon.Proxy.Startup.{start-Outcome}
use syrius_orbit_daemon.Recorder.{Recorder, new_recorder, attach, attach_cloud}
use syrius_orbit_daemon.Migrator.{Migration, Database, migrate}
use syrius_orbit_daemon.Daemon.{
  Daemon, Round, Gaps, FleetGateway, gateway_init, gateway_start, gateway_stop, spatial_stop,
  on_cloud_connected, connected, wait, shut_down, begin_serving, serve, launch, after_migrate, run,
  new_daemon,
}

bridge-running :
    (o : Option (EndPoint Callback)) (c : EndPoint Callback) (p : Proxy)
    → (bridge o c p).1.running ≡ p.running
bridge-running none c p = refl
bridge-running (some l) c p =
    if_ind {A = Bool × Proxy} (λ r. r.1.running ≡ p.running) (setup_bridge_callbacks l c).0
      (λ _. refl) (λ _. refl)

connect_cloud-running :
    (net : Network) (t : TopicContext) (p : Proxy) → (connect_cloud net t p).1.running ≡ p.running
unfolding connect_cloud
connect_cloud-running net t p =
    let made =
      EndPoint.init net.cloud_broker.mosquitto (new_end_point p.endpoints Side.cloud t)
        p.cloud_client in
    let q : Proxy = record p { cloud_client = made.2; endpoints = suc p.endpoints } in
    if_ind {A = Bool × Proxy} (λ r. r.1.running ≡ p.running) made.0
      (λ _. bridge-running p.local_endpoint made.1 q) (λ _. refl)

connect_cloud_at-running :
    (net : Network) (t : Option TopicContext) (o : Option (EndPoint Callback)) (p : Proxy)
    → (connect_cloud_at net t o p).1.running ≡ p.running
connect_cloud_at-running net none o p = refl
connect_cloud_at-running net (some t) (some ep) p = refl
connect_cloud_at-running net (some t) none p = connect_cloud-running net t p

on_cloud_connect-running :
    (net : Network) (success : Bool) (p : Proxy)
    → (Proxy.on_cloud_connect net success p).1.running ≡ p.running
unfolding Proxy.on_cloud_connect
on_cloud_connect-running net success p =
    if_ind {A = Bool × Proxy} (λ r. r.1.running ≡ p.running)
      (success && p.cloud_client.connect_callback)
      (λ _.
        connect_cloud_at-running net (parse_topic_prefix p.config.mqtt_topic_prefix)
          p.cloud_endpoint p)
      (λ _. refl)

attach_cloud-running : (r : Recorder) (p : Proxy) → (attach_cloud (r, p)).1.running ≡ p.running
unfolding attach_cloud
attach_cloud-running r p =
    if_ind {A = Recorder × Proxy} (λ s. s.1.running ≡ p.running)
      (not r.cloud_ep || r.attached_cloud) (λ _. refl) (λ _. refl)

attach-running : (r : Recorder) (p : Proxy) → (attach (r, p)).1.running ≡ p.running
unfolding attach
attach-running r p =
    if_ind {A = Recorder × Proxy} (λ s. s.1.running ≡ p.running) r.cloud_ep
      (λ _. attach_cloud-running r _) (λ _. refl)

on_cloud_connected-running :
    (called : Bool) (o : Option Recorder) (p : Proxy)
    → (on_cloud_connected called o p).1.running ≡ p.running
on_cloud_connected-running called none p = refl
on_cloud_connected-running true (some r) p = attach_cloud-running r p
on_cloud_connected-running false (some r) p = refl

-- Nothing runs any more.
abbrev pub Settled : {D : Type 0} → Daemon D → Type 0
Settled d = IsDown d.gateway.proxy × (d.projecting ≡ false) × (d.spatial.running ≡ false)

shut_down-Settled : {D : Type 0} (d : Daemon D) → Settled (shut_down d)
unfolding shut_down gateway_stop spatial_stop
shut_down-Settled d = (stop-IsDown d.gateway.proxy, refl, refl)

module _ {D : Type 0} (net : Network) where
  connected-running :
      (cs : List Bool) (d : Daemon D)
      → (connected net cs d).gateway.proxy.running ≡ d.gateway.proxy.running
  unfolding connected
  connected-running [] d = refl
  connected-running (success ∷ cs) d =
      let step = Proxy.on_cloud_connect net success d.gateway.proxy in
      connected-running cs _
      ∙ (on_cloud_connected-running step.0 d.recorder step.1
          ∙ on_cloud_connect-running net success d.gateway.proxy)

  wait-running :
      (rounds : List Round) (d : Daemon D)
      → d.gateway.proxy.running ≡ true
      → (wait net rounds d).0 ≡ 0
  unfolding wait
  wait-running [] d h = refl
  wait-running (round ∷ rounds) d h =
      let d' = connected net round.connections d in
      let h' = connected-running round.connections d ∙ h in
      if_ind {A = ℕ × Daemon D} (λ r. r.0 ≡ 0) round.stop_requested (λ _. refl)
        λ _.
          if_ind {A = ℕ × Daemon D} (λ r. r.0 ≡ 0) (not d'.gateway.proxy.running)
            (λ n. absurd (cc (ap not h', n))) (λ _. wait-running rounds d' h')

  serve-Outcome :
      (gaps : Gaps) (rounds : List Round) (d : Daemon D)
      → d.gateway.proxy.running ≡ true
      → Settled (serve net gaps rounds d).1 × ((serve net gaps rounds d).0 ≡ 0)
  unfolding serve begin_serving
  serve-Outcome gaps rounds d h =
      let first = connected net gaps.before d in
      let second = connected net gaps.built first in
      let event_recorder = new_recorder first.gateway.proxy in
      let up =
        connected-running gaps.attached _
        ∙ (attach-running event_recorder second.gateway.proxy
            ∙ (connected-running gaps.built first ∙ (connected-running gaps.before d ∙ h))) in
      (shut_down-Settled _, wait-running rounds _ up)

not-true : (b : Bool) → not b ≡ true → b ≡ false
not-true true h = sym h
not-true false h = refl

stopped :
    (net : Network) (p : Proxy)
    → (Proxy.start net p).0 ≡ false
    → Outcome (Proxy.start net p)
    → IsDown (Proxy.start net p).1
stopped net p failed (inl down, e) = down
stopped net p failed (inr up, e) = absurd (cc (e, up.running, failed))

-- The gateway of a new daemon, behind its init.
abbrev pub ready : RuntimeConfig → FleetGateway
ready config = (gateway_init config (record { proxy = new_proxy config; initialized = false })).1

launch-Outcome :
    {D : Type 0} (net : Network) (gaps : Gaps) (rounds : List Round) (config : RuntimeConfig)
    (db : Database D)
    → let r = launch net gaps rounds (new_daemon config db) in
      Settled r.1 × (r.0 ≡ (if (gateway_start net (ready config)).0 then 0 else 1))
unfolding launch gateway_init gateway_start Proxy.init
launch-Outcome {D = D} net gaps rounds config db =
    let p : Proxy = record (new_proxy config) { initialized = true } in
    let down : IsProxy p =
      inl (record { running = refl; library = refl; no_local = refl; no_cloud = refl }) in
    let o = start-Outcome net p down in
    let ok = (Proxy.start net p).0 in
    let code = λ (b : Bool). if b then 0 else 1 in
    if_ind {A = ℕ × Daemon D} (λ r. Settled r.1 × (r.0 ≡ code ok)) (not ok)
      (λ h.
        let failed = not-true ok h in ((stopped net p failed o, refl, refl), sym (ap code failed)))
      (λ h.
        let up = not-false ok h in
        let s = serve-Outcome net gaps rounds _ (sym o.1 ∙ up) in (s.0, s.1 ∙ sym (ap code up)))

after_migrate-Outcome :
    {D : Type 0} (net : Network) (gaps : Gaps) (rounds : List Round) (config : RuntimeConfig)
    (db : Database D) (r : Option ℕ × Database D)
    → let s = after_migrate net gaps rounds (new_daemon config db) r in
      Settled s.1 × (s.0 ≡ (if is_some r.0 && (gateway_start net (ready config)).0 then 0 else 1))
after_migrate-Outcome net gaps rounds config db (none, db') = (
  (record { running = refl; library = refl; no_local = refl; no_cloud = refl }, refl, refl),
  refl,
)
after_migrate-Outcome net gaps rounds config db (some k, db') =
    launch-Outcome net gaps rounds config db'

-- A run of the daemon, through any rounds of its loop, any connections of the cloud client and any
-- answers of the libraries, ends with the proxy, the projection and the spatial service stopped; its
-- exit code is 0 if the migrations are applied and the gateway starts, and 1 otherwise, so a gateway
-- that started is never found stopped before stop is requested.
pub run-Settled :
    {D : Type 0} (net : Network) (gaps : Gaps) (exec : Bytes → D → Option D) (now : Bytes)
    (migrations : List Migration) (rounds : List Round) (config : RuntimeConfig) (db : Database D)
    → let r = run net gaps exec now migrations rounds (new_daemon config db) in
      Settled r.1
      × (r.0 ≡ (
          if is_some (migrate exec now migrations db).0 && (gateway_start net (ready config)).0
          then 0
          else 1))
unfolding run
run-Settled net gaps exec now migrations rounds config db =
    after_migrate-Outcome net gaps rounds config db (migrate exec now migrations db)
