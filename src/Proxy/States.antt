-- ===== src/Proxy/States.antt =====
-- The states a proxy can be in: stopped, or running with a local endpoint and, once the cloud
-- broker is connected, a cloud endpoint and the bridge. `Bridged` counts the forwarding callbacks.
use syrius_orbit_daemon.Common.{
  ℕ, ◌+◌, ◌≡◌, refl, Bool, true, false, ◌||◌, Option, none, some, List, [], ◌∷◌, ◌++◌, is_empty,
  Bool-cases, ◌⊎◌, inl, inr, arith,
}
use syrius_orbit_daemon.Topic.{TopicContext}
use syrius_orbit_daemon.Mqtt.Client.{Mosquitto, Client}
use syrius_orbit_daemon.Mqtt.Subscriber
use syrius_orbit_daemon.Mqtt.Subscriber.{new_subscriber}
use syrius_orbit_daemon.Mqtt.EndPoint
use syrius_orbit_daemon.Mqtt.EndPoint.{EndPoint, Side, new_end_point}
use syrius_orbit_daemon.Proxy.{
  Callback, forward_to_cloud, forward_to_local, record_event, Proxy, stop,
}

-- How often a message is forwarded by a list of callbacks.
abbrev pub is_forward : Callback → ℕ
is_forward forward_to_cloud = 1
is_forward forward_to_local = 1
is_forward record_event = 0

abbrev pub forwards : List Callback → ℕ
forwards [] = 0
forwards (c ∷ cs) = is_forward c + forwards cs

pub forwards-append :
    (cs : List Callback) (c : Callback) → forwards (cs ++ (c ∷ [])) ≡ forwards cs + is_forward c
forwards-append [] c = omega arith
forwards-append (x ∷ cs) c = ground (arith, forwards-append cs c)

-- Every kind of the side is forwarded `n` times.
abbrev pub Uplinks : ℕ → EndPoint Callback → Type 0
Uplinks n ep =
    (forwards ep.subscriber.state_callbacks ≡ n)
    × (forwards ep.subscriber.visualization_callbacks ≡ n)
    × (forwards ep.subscriber.connection_callbacks ≡ n)
    × (forwards ep.subscriber.factsheet_callbacks ≡ n)

abbrev pub Downlinks : ℕ → EndPoint Callback → Type 0
Downlinks n ep =
    (forwards ep.subscriber.order_callbacks ≡ n)
    × (forwards ep.subscriber.instant_actions_callbacks ≡ n)
    × (forwards ep.subscriber.responses_callbacks ≡ n)
    × (forwards ep.subscriber.zone_set_callbacks ≡ n)

-- An endpoint of the side that is not stopped.
abbrev pub Runs : Side → EndPoint Callback → Type 0
Runs side ep = (ep.side ≡ side) × (ep.subscriber.stopped ≡ false)

-- Without a cloud endpoint nothing is forwarded; with one, every message once.
abbrev pub Bridged : EndPoint Callback → Option (EndPoint Callback) → Type 0
Bridged l none = Uplinks 0 l
Bridged l (some c) = Runs Side.cloud c × Uplinks 1 l × Downlinks 1 c

abbrev pub Linked : Option (EndPoint Callback) → Option (EndPoint Callback) → Type 0
Linked none c = ⊥
Linked (some l) c = Runs Side.local l × Bridged l c

pub record IsUp (p : Proxy) : Type 0 where
  pub initialized : p.initialized ≡ true
  pub running : p.running ≡ true
  pub library : p.mosquitto_initialized ≡ true
  pub linked : Linked p.local_endpoint p.cloud_endpoint

pub record IsDown (p : Proxy) : Type 0 where
  pub running : p.running ≡ false
  pub library : p.mosquitto_initialized ≡ false
  pub no_local : p.local_endpoint ≡ none
  pub no_cloud : p.cloud_endpoint ≡ none

abbrev pub IsProxy : Proxy → Type 0
IsProxy p = IsDown p ⊎ IsUp p

-- A new endpoint behind Init, whatever came of it.
abbrev pub Fresh : Side → Bool × EndPoint Callback × Client → Type 0
Fresh side r = Runs side r.1 × Uplinks 0 r.1 × Downlinks 0 r.1

pub init-Fresh :
    (mosq : Mosquitto) (n : ℕ) (side : Side) (template : TopicContext) (client : Client)
    → Fresh side (EndPoint.init mosq (new_end_point n side template) client)
unfolding EndPoint.init Subscriber.init new_end_point new_subscriber
init-Fresh mosq n side template client =
    let b = is_empty template.interface_name || is_empty template.major_version in
    elim (Bool-cases b) [
      | inl h ↦ rw h ((refl, refl), (refl, refl, refl, refl), (refl, refl, refl, refl))
      | inr h ↦ rw h ((refl, refl), (refl, refl, refl, refl), (refl, refl, refl, refl))
    ]

pub stop-IsDown : (p : Proxy) → IsDown (stop p)
unfolding stop
stop-IsDown p = record { running = refl; library = refl; no_local = refl; no_cloud = refl }

-- A result that says whether the proxy runs.
abbrev pub Outcome : Bool × Proxy → Type 0
Outcome r = IsProxy r.1 × (r.0 ≡ r.1.running)

pub stop-Outcome : (p : Proxy) → Outcome (false, stop p)
unfolding stop
stop-Outcome p = (inl (stop-IsDown p), refl)
