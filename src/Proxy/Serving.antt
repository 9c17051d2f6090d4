-- ===== src/Proxy/Serving.antt =====
-- Which callbacks the endpoints of a running VDA5050Proxy (src/VDA5050Proxy.cpp) hold, in their order.
use syrius_orbit_daemon.Common.{
  not-false, ℕ, suc, ◌≡◌, refl, sym, ap, ◌∙◌, subst, Bool, true, false, not, ◌&&◌, Option, none,
  some, List, [], ◌∷◌, ◌++◌, map, if_ind, arith,
}
use syrius_orbit_daemon.Topic.{TopicContext, parse_topic_prefix}
use syrius_orbit_daemon.Mqtt.Client.{Client}
use syrius_orbit_daemon.Mqtt.EndPoint
use syrius_orbit_daemon.Mqtt.EndPoint.{EndPoint, Side, new_end_point, received}
use syrius_orbit_daemon.Mqtt.EndPoint.Forward.{entry, init-added}
use syrius_orbit_daemon.Proxy.{
  Callback, forward_to_cloud, forward_to_local, Network, Proxy, start, start_at, start_local,
  finish_start, configured, on_cloud_connect, connect_cloud_at, connect_cloud, bridge,
}
use syrius_orbit_daemon.Proxy.Opened.{
  IsOpen, with_uplink-IsOpen, with_downlink-IsOpen, init-IsOpen, init-id,
}
use syrius_orbit_daemon.Proxy.Setup.{setup_bridge_callbacks-running}

-- The callbacks of both sides: those of the bridge are there, behind `held`, from the first successful
-- connection of the cloud client on.
abbrev pub Joined :
    TopicContext → List Callback → Option (EndPoint Callback) → Option (EndPoint Callback) → Type 0
Joined t held none c = ⊥
Joined t held (some l) none = IsOpen Side.local t held [] l
Joined t held (some l) (some c) =
    IsOpen Side.local t (held ++ (forward_to_cloud ∷ [])) [] l
    × IsOpen Side.cloud t [] (forward_to_local ∷ []) c

-- The client has the subscriptions of this endpoint, and no others.
abbrev pub Subscribed : TopicContext → Option (EndPoint Callback) → Client → Type 0
Subscribed t none client = ⊥
Subscribed t (some ep) client = client.subscriptions ≡ map (entry ep.id t) (received ep.side)

-- The proxy works for the configured prefix.
pub record IsServing (t : TopicContext) (held : List Callback) (p : Proxy) : Type 0 where
  pub prefix : parse_topic_prefix p.config.mqtt_topic_prefix ≡ some t
  pub joined : Joined t held p.local_endpoint p.cloud_endpoint
  pub subscribed : Subscribed t p.local_endpoint p.local_client

-- What a start that succeeds leaves.
abbrev Serves : TopicContext → Bool × Proxy → Type 0
Serves t r = r.0 ≡ true → IsServing t [] r.1

fails : {A : Type 0} → false ≡ true → A
fails h = absurd (cc h)

finish_start-Serves :
    (net : Network) (t : TopicContext) (p : Proxy)
    → IsServing t [] p
    → Serves t (finish_start net p)
unfolding finish_start
finish_start-Serves net t p s =
    if_ind (Serves t) (not net.local_broker.loop_start) (λ _. fails)
      (λ _ _. record { prefix = s.prefix; joined = s.joined; subscribed = s.subscribed })

start_local-Serves :
    (net : Network) (t : TopicContext) (p : Proxy)
    → parse_topic_prefix p.config.mqtt_topic_prefix ≡ some t
    → p.local_client.subscriptions ≡ []
    → p.cloud_endpoint ≡ none
    → Serves t (start_local net t p)
unfolding start_local
start_local-Serves net t p prefix none_yet c =
    let opened = init-IsOpen net.local_broker.mosquitto p.endpoints Side.local t p.local_client in
    let made =
      EndPoint.init net.local_broker.mosquitto (new_end_point p.endpoints Side.local t)
        p.local_client in
    let q : Proxy = record p {
      local_client = made.2;
      local_endpoint = some made.1;
      endpoints = suc p.endpoints;
    } in
    let joined = subst (Joined t [] (some made.1)) (sym c) opened in
    let all = λ (id : ℕ) (side : Side). map (entry id t) (received side) in
    let made_subscribed : made.0 ≡ true → Subscribed t (some made.1) made.2 = λ inited.
      ap (λ (c : Client). c.subscriptions)
        (init-added Callback net.local_broker.mosquitto p.endpoints Side.local t p.local_client
          inited)
      ∙ (ap (λ l. l ++ all p.endpoints Side.local) none_yet
          ∙ (ap (all p.endpoints) (sym opened.at_side)
              ∙ ap (λ id. all id made.1.side)
                  (sym (
                    init-id net.local_broker.mosquitto p.endpoints Side.local t
                      p.local_client)))) in
    if_ind (Serves t) (not (configured net p.config)) (λ _. fails)
      λ _.
        if_ind (Serves t) (not (net.local_broker.connect p.config.mqtt_host p.config.mqtt_port))
          (λ _. fails)
          λ _.
            if_ind (Serves t) (not made.0) (λ _. fails)
              λ inited. finish_start-Serves net t q (record {
                prefix = prefix;
                joined = joined;
                subscribed = made_subscribed (not-false made.0 inited);
              })

start_at-Serves :
    (net : Network) (o : Option TopicContext) (t : TopicContext) (p : Proxy)
    → parse_topic_prefix p.config.mqtt_topic_prefix ≡ some t
    → o ≡ some t
    → p.local_client.subscriptions ≡ []
    → p.cloud_endpoint ≡ none
    → Serves t (start_at net o p)
start_at-Serves net none t p prefix e n c = fails
start_at-Serves net (some u) t p prefix e n c =
    let same : u ≡ t = ground arith in
    if_ind (Serves t) (not net.lib_init) (λ _. fails)
      λ _.
        let q : Proxy = record p { mosquitto_initialized = true } in
        subst (λ x. Serves x (start_local net u q)) same
          (start_local-Serves net u q (prefix ∙ sym e) n c)

-- A start of a proxy that did not run, whose local client had no subscription and which had no
-- cloud endpoint.
pub start-Serves :
    (net : Network) (t : TopicContext) (p : Proxy)
    → parse_topic_prefix p.config.mqtt_topic_prefix ≡ some t
    → p.running ≡ false
    → p.local_client.subscriptions ≡ []
    → p.cloud_endpoint ≡ none
    → Serves t (start net p)
unfolding start
start-Serves net t p prefix down n c =
    if_ind (Serves t) (not p.initialized) (λ _. fails)
      λ _.
        if_ind (Serves t) p.running (λ h. absurd (cc (h, down)))
          λ _.
            start_at-Serves net (parse_topic_prefix p.config.mqtt_topic_prefix) t p prefix prefix n
              c

bridge-IsServing :
    (t : TopicContext) (held : List Callback) (l : Option (EndPoint Callback))
    (c : EndPoint Callback) (p : Proxy)
    → parse_topic_prefix p.config.mqtt_topic_prefix ≡ some t
    → Joined t held l none
    → Subscribed t l p.local_client
    → IsOpen Side.cloud t [] [] c
    → IsServing t held (bridge l c p).1
bridge-IsServing t held none c p prefix j s o = absurd j
bridge-IsServing t held (some l) c p prefix j s o =
    let up = with_uplink-IsOpen forward_to_cloud Side.local t held [] l j in
    let down = with_downlink-IsOpen forward_to_local Side.cloud t [] [] c o in
    rw (setup_bridge_callbacks-running l c j.at_side j.runs o.at_side o.runs)
      (record { prefix = prefix; joined = (up, down); subscribed = s })

connect_cloud_at-IsServing :
    (net : Network) (t : TopicContext) (held : List Callback) (u : Option TopicContext)
    (o : Option (EndPoint Callback)) (p : Proxy)
    → u ≡ some t
    → p.cloud_endpoint ≡ o
    → IsServing t held p
    → IsServing t held (connect_cloud_at net u o p).1
unfolding connect_cloud
connect_cloud_at-IsServing net t held none o p e c s = s
connect_cloud_at-IsServing net t held (some u) (some ep) p e c s = s
connect_cloud_at-IsServing net t held (some u) none p e c s =
    let same : u ≡ t = ground arith in
    let made =
      EndPoint.init net.cloud_broker.mosquitto (new_end_point p.endpoints Side.cloud u)
        p.cloud_client in
    let q : Proxy = record p { cloud_client = made.2; endpoints = suc p.endpoints } in
    let j = subst (Joined t held p.local_endpoint) c s.joined in
    let opened =
      subst (λ x. IsOpen Side.cloud x [] [] made.1) same
        (init-IsOpen net.cloud_broker.mosquitto p.endpoints Side.cloud u p.cloud_client) in
    if_ind {A = Bool × Proxy} (λ r. IsServing t held r.1) made.0
      (λ _. bridge-IsServing t held p.local_endpoint made.1 q s.prefix j s.subscribed opened)
      (λ _. record { prefix = s.prefix; joined = s.joined; subscribed = s.subscribed })

pub on_cloud_connect-IsServing :
    (net : Network) (t : TopicContext) (held : List Callback) (success : Bool) (p : Proxy)
    → IsServing t held p
    → IsServing t held (on_cloud_connect net success p).1
unfolding on_cloud_connect
on_cloud_connect-IsServing net t held success p s =
    if_ind {A = Bool × Proxy} (λ r. IsServing t held r.1)
      (success && p.cloud_client.connect_callback)
      (λ _.
        connect_cloud_at-IsServing net t held (parse_topic_prefix p.config.mqtt_topic_prefix)
          p.cloud_endpoint p s.prefix refl s)
      (λ _. s)
