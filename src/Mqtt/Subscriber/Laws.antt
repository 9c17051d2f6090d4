-- ===== src/Mqtt/Subscriber/Laws.antt =====
-- What a VDA5050Subscriber promises.
use syrius_orbit_daemon.Common.{
  ℕ, ◌≡◌, refl, ap, ◌∙◌, Bool, true, false, Option, none, some, [], ◌∷◌, ◌++◌, Bytes, if◌then◌else◌,
  arith,
}
use syrius_orbit_daemon.Mqtt.Messages.{
  Kind, state, visualization, connection, factsheet, order, instant_actions, responses, zone_set,
}
use syrius_orbit_daemon.Mqtt.Client.{Mosquitto, Client}
use syrius_orbit_daemon.Mqtt.Subscriber.{
  Subscriber, callbacks, push, on, init, subscribe, stop, dispatch,
}

-- Kinds that are equal, as a test.
abbrev pub same_kind : Kind → Kind → Bool
same_kind state state = true
same_kind visualization visualization = true
same_kind connection connection = true
same_kind factsheet factsheet = true
same_kind order order = true
same_kind instant_actions instant_actions = true
same_kind responses responses = true
same_kind zone_set zone_set = true
same_kind _ _ = false

module _ {C : Type 0} where
  callbacks-push :
      (kind k : Kind) (c : C) (s : Subscriber C)
      → callbacks k (push kind c s)
        ≡ (if same_kind kind k then callbacks k s ++ (c ∷ []) else callbacks k s)
  callbacks-push kind k c s = ground arith

  on-running :
      (kind : Kind) (c : C) (s : Subscriber C)
      → s.stopped ≡ false
      → on kind (some c) s ≡ (true, push kind c s)
  unfolding on
  on-running kind c s h = ap (λ b. if b then (false, s) else (true, push kind c s)) h

  -- A callback that is registered is called last for messages of its kind, and no other kind's
  -- callbacks change; registering fails, and changes nothing, exactly for an empty callback and
  -- after Stop.
  pub callbacks-on :
      (kind k : Kind) (c : C) (s : Subscriber C)
      → (on kind none s ≡ (false, s))
        × (s.stopped ≡ true → on kind (some c) s ≡ (false, s))
        × (s.stopped ≡ false → (on kind (some c) s).0 ≡ true)
        × (s.stopped ≡ false
            → callbacks k (on kind (some c) s).1
              ≡ (if same_kind kind k then callbacks k s ++ (c ∷ []) else callbacks k s))
  unfolding on
  callbacks-on kind k c s = (
    refl,
    (λ h. ap (λ b. if b then (false, s) else (true, push kind c s)) h),
    (λ h. ap (λ r. r.0) (on-running kind c s h)),
    λ h. ap (λ r. callbacks k r.1) (on-running kind c s h) ∙ callbacks-push kind k c s,
  )

  -- After Stop nothing more happens: registering, subscribing and Init fail and change nothing, and
  -- no message calls a callback.
  pub stop_final :
      (mosq : Mosquitto) (owner : ℕ) (kind : Kind) (c : Option C) (topic : Bytes) (s : Subscriber C)
      (client : Client)
      → (on kind c (stop s) ≡ (false, stop s))
        × (init (stop s) ≡ (false, stop s))
        × (subscribe mosq owner kind (stop s) client ≡ (false, client))
        × (dispatch kind topic (stop s) ≡ [])
  unfolding on init subscribe dispatch stop
  stop_final mosq owner kind none topic s client = (refl, refl, refl, refl)
  stop_final mosq owner kind (some c) topic s client = (refl, refl, refl, refl)
