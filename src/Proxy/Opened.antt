-- ===== src/Proxy/Opened.antt =====
-- The callbacks of one endpoint of the proxy (src/VDA5050Proxy.cpp), in their order.
use syrius_orbit_daemon.Common.{
  ℕ, ◌≡◌, refl, ap, Bool, true, false, ◌||◌, List, [], ◌∷◌, ◌++◌, is_empty, if◌then◌else◌, if_ind,
  Bool-cases, inl, inr,
}
use syrius_orbit_daemon.Topic.{TopicContext}
use syrius_orbit_daemon.Mqtt.Messages.{
  Kind, state, visualization, connection, factsheet, order, instant_actions, responses, zone_set,
  is_uplink,
}
use syrius_orbit_daemon.Mqtt.Client.{Mosquitto, Client}
use syrius_orbit_daemon.Mqtt.Subscriber
use syrius_orbit_daemon.Mqtt.Subscriber.{callbacks, new_subscriber}
use syrius_orbit_daemon.Mqtt.EndPoint
use syrius_orbit_daemon.Mqtt.EndPoint.{EndPoint, Side, new_end_point}
use syrius_orbit_daemon.Proxy.{Callback}
use syrius_orbit_daemon.Proxy.Setup.{with_uplink, with_downlink}

-- An endpoint of the side that works, with `up` registered for every uplink kind and `down` for every
-- downlink kind.
pub record IsOpen (side : Side) (t : TopicContext) (up down : List Callback)
    (ep : EndPoint Callback) : Type 0 where
  pub at_side : ep.side ≡ side
  pub runs : ep.subscriber.stopped ≡ false
  pub sends : ep.publisher_stopped ≡ false
  pub template : ep.subscriber.topic_template ≡ t
  pub lists : (k : Kind) → callbacks k ep.subscriber ≡ (if is_uplink k then up else down)

with_uplink-lists :
    (c : Callback) (up down : List Callback) (ep : EndPoint Callback)
    → ((k : Kind) → callbacks k ep.subscriber ≡ (if is_uplink k then up else down))
    → (k : Kind)
    → callbacks k (with_uplink c ep).subscriber ≡ (if is_uplink k then up ++ (c ∷ []) else down)
with_uplink-lists c up down ep h state = ap (λ l. l ++ (c ∷ [])) (h state)
with_uplink-lists c up down ep h visualization = ap (λ l. l ++ (c ∷ [])) (h visualization)
with_uplink-lists c up down ep h connection = ap (λ l. l ++ (c ∷ [])) (h connection)
with_uplink-lists c up down ep h factsheet = ap (λ l. l ++ (c ∷ [])) (h factsheet)
with_uplink-lists c up down ep h order = h order
with_uplink-lists c up down ep h instant_actions = h instant_actions
with_uplink-lists c up down ep h responses = h responses
with_uplink-lists c up down ep h zone_set = h zone_set

with_downlink-lists :
    (c : Callback) (up down : List Callback) (ep : EndPoint Callback)
    → ((k : Kind) → callbacks k ep.subscriber ≡ (if is_uplink k then up else down))
    → (k : Kind)
    → callbacks k (with_downlink c ep).subscriber ≡ (if is_uplink k then up else down ++ (c ∷ []))
with_downlink-lists c up down ep h state = h state
with_downlink-lists c up down ep h visualization = h visualization
with_downlink-lists c up down ep h connection = h connection
with_downlink-lists c up down ep h factsheet = h factsheet
with_downlink-lists c up down ep h order = ap (λ l. l ++ (c ∷ [])) (h order)
with_downlink-lists c up down ep h instant_actions = ap (λ l. l ++ (c ∷ [])) (h instant_actions)
with_downlink-lists c up down ep h responses = ap (λ l. l ++ (c ∷ [])) (h responses)
with_downlink-lists c up down ep h zone_set = ap (λ l. l ++ (c ∷ [])) (h zone_set)

pub with_uplink-IsOpen :
    (c : Callback) (side : Side) (t : TopicContext) (up down : List Callback)
    (ep : EndPoint Callback)
    → IsOpen side t up down ep
    → IsOpen side t (up ++ (c ∷ [])) down (with_uplink c ep)
with_uplink-IsOpen c side t up down ep o = record {
  at_side = o.at_side;
  runs = o.runs;
  sends = o.sends;
  template = o.template;
  lists = with_uplink-lists c up down ep o.lists;
}

pub with_downlink-IsOpen :
    (c : Callback) (side : Side) (t : TopicContext) (up down : List Callback)
    (ep : EndPoint Callback)
    → IsOpen side t up down ep
    → IsOpen side t up (down ++ (c ∷ [])) (with_downlink c ep)
with_downlink-IsOpen c side t up down ep o = record {
  at_side = o.at_side;
  runs = o.runs;
  sends = o.sends;
  template = o.template;
  lists = with_downlink-lists c up down ep o.lists;
}

new-lists :
    (t : TopicContext) (b : Bool) (k : Kind)
    → callbacks {C = Callback} k (record (new_subscriber t) { initialized = b })
      ≡ (if is_uplink k then [] else [])
unfolding new_subscriber
new-lists t b state = refl
new-lists t b visualization = refl
new-lists t b connection = refl
new-lists t b factsheet = refl
new-lists t b order = refl
new-lists t b instant_actions = refl
new-lists t b responses = refl
new-lists t b zone_set = refl

-- A new endpoint behind Init, whatever came of it, holds no callback.
pub init-IsOpen :
    (mosq : Mosquitto) (id : ℕ) (side : Side) (t : TopicContext) (client : Client)
    → IsOpen side t [] [] (EndPoint.init mosq (new_end_point id side t) client).1
unfolding EndPoint.init Subscriber.init new_end_point new_subscriber
init-IsOpen mosq id side t client =
    elim (Bool-cases (is_empty t.interface_name || is_empty t.major_version)) [
      | inl h ↦ rw h (record {
        at_side = refl;
        runs = refl;
        sends = refl;
        template = refl;
        lists = new-lists t false;
      })
      | inr h ↦ rw h (record {
        at_side = refl;
        runs = refl;
        sends = refl;
        template = refl;
        lists = new-lists t true;
      })
    ]

pub init-id :
    (mosq : Mosquitto) (id : ℕ) (side : Side) (t : TopicContext) (client : Client)
    → (EndPoint.init mosq (new_end_point {C = Callback} id side t) client).1.id ≡ id
unfolding EndPoint.init new_end_point
init-id mosq id side t client =
    if_ind {A = Bool × EndPoint Callback × Client} (λ r. r.1.id ≡ id)
      (Subscriber.init (new_end_point {C = Callback} id side t).subscriber).0 (λ _. refl)
      (λ _. refl)
