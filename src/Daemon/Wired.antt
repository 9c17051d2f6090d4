-- ===== src/Daemon/Wired.antt =====
-- Which callbacks stand on the proxy's endpoints once the recorder is attached (src/Daemon.cpp).
pub mod Attached
use syrius_orbit_daemon.Common.{
  ◌≡◌, refl, sym, ap, ◌∙◌, subst, Bool, true, false, ◌&&◌, Option, none, some, List, [], ◌∷◌, map,
  if_ind, ◌⊎◌, inl, inr, Option-cases,
}
use syrius_orbit_daemon.Topic.{TopicContext, parse_topic_prefix}
use syrius_orbit_daemon.Mqtt.EndPoint.{EndPoint, Side, received}
use syrius_orbit_daemon.Mqtt.EndPoint.Forward.{entry}
use syrius_orbit_daemon.Proxy
use syrius_orbit_daemon.Proxy.{
  Callback, forward_to_cloud, forward_to_local, record_event, Network, Proxy, Broker, new_proxy,
}
use syrius_orbit_daemon.Proxy.Opened.{IsOpen}
use syrius_orbit_daemon.Proxy.Serving.{Subscribed, Joined, IsServing, on_cloud_connect-IsServing}

-- The callbacks of an uplink kind: they record once, and forward once if there is a cloud endpoint. Which
-- comes first depends on whether the cloud was connected before the recorder was attached.
abbrev pub IsUplink : Option (EndPoint Callback) → List Callback → Type 0
IsUplink none up = up ≡ record_event ∷ []
IsUplink (some e) up =
    (up ≡ record_event ∷ (forward_to_cloud ∷ [])) ⊎ (up ≡ forward_to_cloud ∷ (record_event ∷ []))

-- The callbacks of a downlink kind, for a recorder that holds the cloud endpoint or not.
abbrev pub downlinks : Bool → List Callback
downlinks true = forward_to_local ∷ (record_event ∷ [])
downlinks false = forward_to_local ∷ []

abbrev pub IsCloud : TopicContext → Bool → Option (EndPoint Callback) → Type 0
IsCloud t held none = held ≡ false
IsCloud t held (some e) = IsOpen Side.cloud t [] (downlinks held) e

-- The proxy with the recorder's callbacks; `held` is whether the recorder holds the cloud endpoint.
pub record IsWired (t : TopicContext) (held : Bool) (p : Proxy) : Type 0 where
  pub prefix : parse_topic_prefix p.config.mqtt_topic_prefix ≡ some t
  pub local_end : EndPoint Callback
  pub at_local : p.local_endpoint ≡ some local_end
  pub up : List Callback
  pub uplink : IsUplink p.cloud_endpoint up
  pub opened : IsOpen Side.local t up [] local_end
  pub cloud : IsCloud t held p.cloud_endpoint
  pub subscribed : p.local_client.subscriptions ≡ map (entry local_end.id t) (received Side.local)

-- Once there is a cloud endpoint a connection changes nothing and calls nothing.
connect_cloud_at-fixed :
    (net : Network) (u : Option TopicContext) (o : Option (EndPoint Callback)) (p : Proxy)
    (e : EndPoint Callback)
    → o ≡ some e
    → Proxy.connect_cloud_at net u o p ≡ (false, p)
connect_cloud_at-fixed net none o p e h = refl
connect_cloud_at-fixed net (some u) none p e h = absurd (cc h)
connect_cloud_at-fixed net (some u) (some old) p e h = refl

pub on_cloud_connect-fixed :
    (net : Network) (success : Bool) (p : Proxy) (e : EndPoint Callback)
    → p.cloud_endpoint ≡ some e
    → Proxy.on_cloud_connect net success p ≡ (false, p)
unfolding Proxy.on_cloud_connect
on_cloud_connect-fixed net success p e h =
    if_ind {A = Bool × Proxy} (λ r. r ≡ (false, p)) (success && p.cloud_client.connect_callback)
      (λ _.
        connect_cloud_at-fixed net (parse_topic_prefix p.config.mqtt_topic_prefix) p.cloud_endpoint
          p e h)
      (λ _. refl)

IsServing-IsWired_at :
    (t : TopicContext) (o c : Option (EndPoint Callback)) (p : Proxy)
    → p.local_endpoint ≡ o
    → p.cloud_endpoint ≡ c
    → parse_topic_prefix p.config.mqtt_topic_prefix ≡ some t
    → Joined t (record_event ∷ []) o c
    → Subscribed t o p.local_client
    → IsWired t false p
IsServing-IsWired_at t none c p eo ec prefix j s = absurd j
IsServing-IsWired_at t (some l) none p eo ec prefix j s = record {
  prefix = prefix;
  local_end = l;
  at_local = eo;
  up = record_event ∷ [];
  uplink = subst (λ c. IsUplink c (record_event ∷ [])) (sym ec) refl;
  opened = j;
  cloud = subst (IsCloud t false) (sym ec) refl;
  subscribed = s ∙ ap (λ side. map (entry l.id t) (received side)) j.at_side;
}
IsServing-IsWired_at t (some l) (some e) p eo ec prefix j s =
    let both = record_event ∷ (forward_to_cloud ∷ []) in
    record {
      prefix = prefix;
      local_end = l;
      at_local = eo;
      up = both;
      uplink = subst (λ c. IsUplink c both) (sym ec) (inl refl);
      opened = j.0;
      cloud = subst (IsCloud t false) (sym ec) j.1;
      subscribed = s ∙ ap (λ side. map (entry l.id t) (received side)) j.0.at_side;
    }

IsServing-IsWired :
    (t : TopicContext) (p : Proxy) → IsServing t (record_event ∷ []) p → IsWired t false p
IsServing-IsWired t p s =
    IsServing-IsWired_at t p.local_endpoint p.cloud_endpoint p refl refl s.prefix s.joined
      s.subscribed

IsWired-IsServing :
    (t : TopicContext) (held : Bool) (p : Proxy)
    → p.cloud_endpoint ≡ none
    → IsWired t held p
    → IsServing t (record_event ∷ []) p
IsWired-IsServing t held p c w =
    let up = subst (λ o. IsUplink o w.up) c w.uplink in
    let l = subst (λ u. IsOpen Side.local t u [] w.local_end) up w.opened in
    record {
      prefix = w.prefix;
      joined =
          subst (λ o. Joined t (record_event ∷ []) o p.cloud_endpoint) (sym w.at_local)
            (subst (Joined t (record_event ∷ []) (some w.local_end)) (sym c) l);
      subscribed =
          subst (λ o. Subscribed t o p.local_client) (sym w.at_local)
            (w.subscribed
              ∙ ap (λ side. map (entry w.local_end.id t) (received side)) (sym l.at_side));
    }

pub on_cloud_connect-IsWired :
    (net : Network) (t : TopicContext) (held success : Bool) (p : Proxy)
    → IsWired t held p
    → IsWired t held (Proxy.on_cloud_connect net success p).1
on_cloud_connect-IsWired net t held success p w = elim (Option-cases p.cloud_endpoint) [
  | inl c ↦
      let free : held ≡ false = subst (IsCloud t held) c w.cloud in
      let after = IsServing-IsWired t (Proxy.on_cloud_connect net success p).1 (
        on_cloud_connect-IsServing net t (record_event ∷ []) success p
          (IsWired-IsServing t held p c w)) in
      subst (λ b. IsWired t b (Proxy.on_cloud_connect net success p).1) (sym free) after
  | inr (e, c) ↦
      subst (λ (r : Bool × Proxy). IsWired t held r.1)
        (sym (on_cloud_connect-fixed net success p e c)) w
]
