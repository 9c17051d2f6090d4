-- ===== src/Proxy/Setup.antt =====
-- What registering a bridge's callbacks does to an endpoint.
use syrius_orbit_daemon.Common.{
  ◌≡◌, refl, sym, ap, ◌∙◌, subst, true, false, [], ◌∷◌, ◌++◌, if◌then◌else◌,
}
use syrius_orbit_daemon.Mqtt.Subscriber
use syrius_orbit_daemon.Mqtt.Subscriber.{Subscriber, callbacks}
use syrius_orbit_daemon.Mqtt.EndPoint
use syrius_orbit_daemon.Mqtt.EndPoint.{EndPoint, Side, received, receives}
use syrius_orbit_daemon.Proxy.{
  Callback, forward_to_cloud, forward_to_local, register_all, bridge_local_to_cloud,
  bridge_cloud_to_local, setup_bridge_callbacks,
}

-- The endpoint with one more callback for each of the four kinds of its side.
abbrev pub with_uplink : Callback → EndPoint Callback → EndPoint Callback
with_uplink c ep = record ep {
  subscriber = record ep.subscriber {
    state_callbacks = ep.subscriber.state_callbacks ++ (c ∷ []);
    visualization_callbacks = ep.subscriber.visualization_callbacks ++ (c ∷ []);
    connection_callbacks = ep.subscriber.connection_callbacks ++ (c ∷ []);
    factsheet_callbacks = ep.subscriber.factsheet_callbacks ++ (c ∷ []);
  };
}

abbrev pub with_downlink : Callback → EndPoint Callback → EndPoint Callback
with_downlink c ep = record ep {
  subscriber = record ep.subscriber {
    order_callbacks = ep.subscriber.order_callbacks ++ (c ∷ []);
    instant_actions_callbacks = ep.subscriber.instant_actions_callbacks ++ (c ∷ []);
    responses_callbacks = ep.subscriber.responses_callbacks ++ (c ∷ []);
    zone_set_callbacks = ep.subscriber.zone_set_callbacks ++ (c ∷ []);
  };
}

-- An endpoint of the side that runs.
abbrev pub running_at : Side → EndPoint Callback → EndPoint Callback
running_at side ep = record ep {
  side = side;
  subscriber = record ep.subscriber { stopped = false };
}

pub running_at_self :
    (side : Side) (ep : EndPoint Callback)
    → ep.side ≡ side
    → ep.subscriber.stopped ≡ false
    → ep ≡ running_at side ep
running_at_self side ep at_side running =
    ap (λ s. record ep { side = s }) at_side
    ∙ ap (λ b. record ep { side = side; subscriber = record ep.subscriber { stopped = b } }) running

bridge_local_to_cloud-running :
    (ep : EndPoint Callback)
    → ep.side ≡ Side.local
    → ep.subscriber.stopped ≡ false
    → bridge_local_to_cloud ep ≡ (true, with_uplink forward_to_cloud ep)
unfolding bridge_local_to_cloud register_all EndPoint.on Subscriber.on
bridge_local_to_cloud-running ep at_side running =
    subst (λ x. bridge_local_to_cloud x ≡ (true, with_uplink forward_to_cloud x))
      (sym (running_at_self Side.local ep at_side running)) refl

bridge_cloud_to_local-running :
    (ep : EndPoint Callback)
    → ep.side ≡ Side.cloud
    → ep.subscriber.stopped ≡ false
    → bridge_cloud_to_local ep ≡ (true, with_downlink forward_to_local ep)
unfolding bridge_cloud_to_local register_all EndPoint.on Subscriber.on
bridge_cloud_to_local-running ep at_side running =
    subst (λ x. bridge_cloud_to_local x ≡ (true, with_downlink forward_to_local x))
      (sym (running_at_self Side.cloud ep at_side running)) refl

-- Between a running local endpoint and a running cloud endpoint, setup_bridge_callbacks succeeds and
-- adds, behind the callbacks that are there, the forwarding callback for every uplink kind on the local
-- side and for every downlink kind on the cloud side, and changes nothing else.
pub setup_bridge_callbacks-running :
    (l c : EndPoint Callback)
    → l.side ≡ Side.local
    → l.subscriber.stopped ≡ false
    → c.side ≡ Side.cloud
    → c.subscriber.stopped ≡ false
    → setup_bridge_callbacks l c
      ≡ (true, with_uplink forward_to_cloud l, with_downlink forward_to_local c)
unfolding setup_bridge_callbacks
setup_bridge_callbacks-running l c ls lr cs cr =
    ap
      (λ r.
        if r.0
        then ((bridge_cloud_to_local c).0, r.1, (bridge_cloud_to_local c).1)
        else (false, r.1, c))
      (bridge_local_to_cloud-running l ls lr)
    ∙ ap (λ r. (r.0, with_uplink forward_to_cloud l, r.1)) (bridge_cloud_to_local-running c cs cr)
