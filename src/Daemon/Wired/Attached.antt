-- ===== src/Daemon/Wired/Attached.antt =====
-- What attach and attachCloud (src/Vda5050EventRecorder.cpp) make of a proxy that serves.
use mathlib.Core.Option
use syrius_orbit_daemon.Common.{
  ◌≡◌, refl, sym, ap, ◌∙◌, subst, Bool, true, false, Option, none, some, List, [], ◌∷◌, ◌++◌, map,
  if◌then◌else◌, inl, inr, Option-cases,
}
use syrius_orbit_daemon.Topic.{TopicContext, parse_topic_prefix}
use syrius_orbit_daemon.Mqtt.Messages.{
  Kind, state, visualization, connection, factsheet, order, instant_actions, responses, zone_set,
}
use syrius_orbit_daemon.Mqtt.Subscriber
use syrius_orbit_daemon.Mqtt.Subscriber.{Subscriber, callbacks, calls, dispatch, new_subscriber}
use syrius_orbit_daemon.Mqtt.EndPoint
use syrius_orbit_daemon.Mqtt.EndPoint.{EndPoint, Side, receives, received}
use syrius_orbit_daemon.Mqtt.EndPoint.Forward.{entry}
use syrius_orbit_daemon.Proxy.{Callback, forward_to_cloud, forward_to_local, record_event, Proxy}
use syrius_orbit_daemon.Proxy.Setup.{with_uplink, with_downlink, running_at_self}
use syrius_orbit_daemon.Proxy.Opened.{IsOpen, with_uplink-IsOpen, with_downlink-IsOpen}
use syrius_orbit_daemon.Proxy.Serving.{Subscribed, Joined, IsServing}
use syrius_orbit_daemon.Recorder.{Recorder, attach, attach_cloud, register}
use syrius_orbit_daemon.Daemon.Wired.{IsUplink, IsCloud, IsWired}

abbrev uplinks : List Kind
uplinks = state ∷ visualization ∷ connection ∷ factsheet ∷ []

abbrev downlink_kinds : List Kind
downlink_kinds = order ∷ instant_actions ∷ responses ∷ zone_set ∷ []

register-running :
    (ep : EndPoint Callback)
    → ep.side ≡ Side.local
    → ep.subscriber.stopped ≡ false
    → register uplinks ep ≡ with_uplink record_event ep
unfolding register EndPoint.on Subscriber.on
register-running ep at_side runs =
    subst (λ x. register uplinks x ≡ with_uplink record_event x)
      (sym (running_at_self Side.local ep at_side runs)) refl

register-running_cloud :
    (ep : EndPoint Callback)
    → ep.side ≡ Side.cloud
    → ep.subscriber.stopped ≡ false
    → register downlink_kinds ep ≡ with_downlink record_event ep
unfolding register EndPoint.on Subscriber.on
register-running_cloud ep at_side runs =
    subst (λ x. register downlink_kinds x ≡ with_downlink record_event x)
      (sym (running_at_self Side.cloud ep at_side runs)) refl

wire :
    (t : TopicContext) (held : Bool) (p : Proxy) (l : EndPoint Callback) (up : List Callback)
    (c : Option (EndPoint Callback))
    → p.local_endpoint ≡ some (register uplinks l)
    → p.cloud_endpoint ≡ c
    → parse_topic_prefix p.config.mqtt_topic_prefix ≡ some t
    → IsOpen Side.local t up [] l
    → IsUplink c (up ++ (record_event ∷ []))
    → IsCloud t held c
    → Subscribed t (some l) p.local_client
    → IsWired t held p
wire t held p l up c at_l at_c prefix j u cloud s = record {
  prefix = prefix;
  local_end = with_uplink record_event l;
  at_local = at_l ∙ ap some (register-running l j.at_side j.runs);
  up = up ++ (record_event ∷ []);
  uplink = subst (λ c. IsUplink c (up ++ (record_event ∷ []))) (sym at_c) u;
  opened = with_uplink-IsOpen record_event Side.local t up [] l j;
  cloud = subst (IsCloud t held) (sym at_c) cloud;
  subscribed = s ∙ ap (λ side. map (entry l.id t) (received side)) j.at_side;
}

-- attach on the local endpoint alone.
attach_local-IsWired :
    (t : TopicContext) (p : Proxy) (o c : Option (EndPoint Callback))
    → p.local_endpoint ≡ o
    → p.cloud_endpoint ≡ c
    → parse_topic_prefix p.config.mqtt_topic_prefix ≡ some t
    → Joined t [] o c
    → Subscribed t o p.local_client
    → IsWired t false (record p { local_endpoint = Option.map (register uplinks) p.local_endpoint })
attach_local-IsWired t p none c eo ec prefix j s = absurd j
attach_local-IsWired t p (some l) none eo ec prefix j s =
    wire t false _ l [] none (ap (Option.map (register uplinks)) eo) ec prefix j refl refl s
attach_local-IsWired t p (some l) (some e) eo ec prefix j s =
    wire t false _ l (forward_to_cloud ∷ []) (some e) (ap (Option.map (register uplinks)) eo) ec
      prefix j.0 (inr refl) j.1 s

-- attach on both endpoints.
attach_both-IsWired :
    (t : TopicContext) (p : Proxy) (o : Option (EndPoint Callback)) (e : EndPoint Callback)
    → p.local_endpoint ≡ o
    → p.cloud_endpoint ≡ some e
    → parse_topic_prefix p.config.mqtt_topic_prefix ≡ some t
    → Joined t [] o (some e)
    → Subscribed t o p.local_client
    → IsWired t true (record p {
      local_endpoint = Option.map (register uplinks) p.local_endpoint;
      cloud_endpoint = Option.map (register downlink_kinds) p.cloud_endpoint;
    })
attach_both-IsWired t p none e eo ec prefix j s = absurd j
attach_both-IsWired t p (some l) e eo ec prefix j s =
    let known = register-running_cloud e j.1.at_side j.1.runs in
    wire t true _ l (forward_to_cloud ∷ []) (some (with_downlink record_event e))
      (ap (Option.map (register uplinks)) eo)
      (ap (Option.map (register downlink_kinds)) ec ∙ ap some known) prefix j.0 (inr refl)
      (with_downlink-IsOpen record_event Side.cloud t [] (forward_to_local ∷ []) e j.1) s

attach-held :
    (r : Recorder) (p : Proxy)
    → r.cloud_ep ≡ true
    → r.attached_cloud ≡ false
    → attach (r, p) ≡ (
      record r { attached_cloud = true },
      record p {
        local_endpoint = Option.map (register uplinks) p.local_endpoint;
        cloud_endpoint = Option.map (register downlink_kinds) p.cloud_endpoint;
      },
    )
unfolding attach attach_cloud
attach-held r p h fresh =
    let both = λ (x : Proxy). record x {
      local_endpoint = Option.map (register uplinks) x.local_endpoint;
      cloud_endpoint = Option.map (register downlink_kinds) x.cloud_endpoint;
    } in
    subst
      (λ a.
        attach (record r { cloud_ep = a }, p)
        ≡ (record r { cloud_ep = a; attached_cloud = true }, both p))
      (sym h)
      (subst
        (λ b.
          attach (record r { cloud_ep = true; attached_cloud = b }, p)
          ≡ (record r { cloud_ep = true; attached_cloud = true }, both p))
        (sym fresh) refl)

pub attach-IsWired :
    (t : TopicContext) (held : Bool) (p : Proxy) (r : Recorder)
    → r.cloud_ep ≡ held
    → r.attached_cloud ≡ false
    → (p.cloud_endpoint ≡ none → held ≡ false)
    → IsServing t [] p
    → let s = attach (r, p) in (s.0.cloud_ep ≡ held) × IsWired t held s.1
unfolding attach attach_cloud
attach-IsWired t false p r h fresh known s =
    subst
      (λ b.
        let x =
          if b
          then attach_cloud
              (r, record p { local_endpoint = Option.map (register uplinks) p.local_endpoint })
          else (r, record p { local_endpoint = Option.map (register uplinks) p.local_endpoint }) in
        (x.0.cloud_ep ≡ false) × IsWired t false x.1)
      (sym h)
      (
        h,
        attach_local-IsWired t p p.local_endpoint p.cloud_endpoint refl refl s.prefix s.joined
            s.subscribed,
      )
attach-IsWired t true p r h fresh known s = elim (Option-cases p.cloud_endpoint) [
  | inl c ↦ absurd (cc (known c))
  | inr (e, c) ↦
      let joined = subst (Joined t [] p.local_endpoint) c s.joined in
      subst (λ (x : Recorder × Proxy). (x.0.cloud_ep ≡ true) × IsWired t true x.1)
        (sym (attach-held r p h fresh))
        (h, attach_both-IsWired t p p.local_endpoint e refl c s.prefix joined s.subscribed)
]
