-- ===== src/Proxy/Extends.antt =====
-- No call of an endpoint (include/syrius_orbit/mqtt/VDA5050EndPoint.hpp) removes a subscription of its
-- client.
use syrius_orbit_daemon.Common.{
  ℕ, ◌≡◌, refl, sym, ap, ◌∙◌, Bool, not, List, [], ◌∷◌, ◌++◌, Bytes, is_empty, if_ind, append_assoc,
  append-nil,
}
use syrius_orbit_daemon.Topic.{build_filter}
use syrius_orbit_daemon.Mqtt.Messages.{Kind, suffix, qos}
use syrius_orbit_daemon.Mqtt.Client
use syrius_orbit_daemon.Mqtt.Client.{Mosquitto, Client, Subscription}
use syrius_orbit_daemon.Mqtt.Subscriber
use syrius_orbit_daemon.Mqtt.Subscriber.{Subscriber}
use syrius_orbit_daemon.Mqtt.EndPoint
use syrius_orbit_daemon.Mqtt.EndPoint.{EndPoint, Side, new_end_point, received, subscribe_all}

-- The client has the subscriptions of the other one, and perhaps more behind them.
abbrev pub Extends : Client → Client → Type 0
Extends old new = (more : List Subscription) × (new.subscriptions ≡ old.subscriptions ++ more)

pub Extends-refl : (c : Client) → Extends c c
Extends-refl c = ([], sym (append-nil c.subscriptions))

pub Extends-trans : (a b c : Client) → Extends a b → Extends b c → Extends a c
Extends-trans a b c (m, e) (n, f) =
    (m ++ n, f ∙ (ap (λ l. l ++ n) e ∙ append_assoc a.subscriptions m n))

client_subscribe-Extends :
    (mosq : Mosquitto) (topic : Bytes) (level owner : ℕ) (kind : Kind) (client : Client)
    → Extends client (Client.subscribe mosq topic level owner kind client).1
unfolding Client.subscribe
client_subscribe-Extends mosq topic level owner kind client =
    if_ind {A = Bool × Client} (λ r. Extends client r.1) (is_empty topic) (λ _. Extends-refl client)
      λ _.
        if_ind {A = Bool × Client} (λ r. Extends client r.1) (not (mosq.subscribe topic level))
          (λ _. Extends-refl client) (λ _. (_, refl))

module _ {C : Type 0} (mosq : Mosquitto) where
  subscribe-Extends :
      (owner : ℕ) (kind : Kind) (s : Subscriber C) (client : Client)
      → Extends client (Subscriber.subscribe mosq owner kind s client).1
  unfolding Subscriber.subscribe
  subscribe-Extends owner kind s client =
      let filter = build_filter s.topic_template (suffix kind) in
      if_ind {A = Bool × Client} (λ r. Extends client r.1) s.stopped (λ _. Extends-refl client)
        λ _.
          if_ind {A = Bool × Client} (λ r. Extends client r.1) (is_empty filter)
            (λ _. Extends-refl client)
            λ _. client_subscribe-Extends mosq filter (qos kind) owner kind client

  subscribe_all-Extends :
      (owner : ℕ) (kinds : List Kind) (s : Subscriber C) (client : Client)
      → Extends client (subscribe_all mosq owner kinds s client).1
  unfolding subscribe_all
  subscribe_all-Extends owner [] s client = Extends-refl client
  subscribe_all-Extends owner (kind ∷ kinds) s client =
      let one = Subscriber.subscribe mosq owner kind s client in
      let first = subscribe-Extends owner kind s client in
      if_ind {A = Bool × Client} (λ r. Extends client r.1) one.0
        (λ _.
          Extends-trans client one.1 (subscribe_all mosq owner kinds s one.1).1 first
            (subscribe_all-Extends owner kinds s one.1))
        (λ _. first)

  pub init-Extends :
      (ep : EndPoint C) (client : Client) → Extends client (EndPoint.init mosq ep client).2
  unfolding EndPoint.init
  init-Extends ep client =
      let inner = Subscriber.init ep.subscriber in
      if_ind {A = Bool × EndPoint C × Client} (λ r. Extends client r.2) inner.0
        (λ _. subscribe_all-Extends ep.id (received ep.side) inner.1 client)
        (λ _. Extends-refl client)
