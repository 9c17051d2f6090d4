-- ===== src/Mqtt/EndPoint/Matches.antt =====
-- Which of an endpoint's subscriptions match a topic (MqttSubscriber::handle_message,
-- include/syrius_orbit/mqtt/MqttSubscriber.hpp).
use syrius_orbit_daemon.Common.{
  ℕ, ◌≡◌, refl, ap, true, List, [], ◌∷◌, map, Bytes, select, Bool-cases, inl, inr,
}
use syrius_orbit_daemon.Topic.{TopicContext, build_filter}
use syrius_orbit_daemon.Mqtt.Messages.{
  Kind, suffix, state, visualization, connection, factsheet, order, instant_actions, responses,
  zone_set,
}
use syrius_orbit_daemon.Mqtt.Client.{Mosquitto, Subscription}
use syrius_orbit_daemon.Mqtt.Subscriber.Laws.{same_kind}
use syrius_orbit_daemon.Mqtt.EndPoint.{Side, receives, received}
use syrius_orbit_daemon.Mqtt.EndPoint.Forward.{entry}

-- The kind's own subscription is the only one that matches.
pub select-entries :
    (here : Mosquitto) (template : TopicContext) (owner : ℕ) (topic : Bytes) (k : Kind)
    (kinds : List Kind)
    → ((k' : Kind) → here.matches (build_filter template (suffix k')) topic ≡ same_kind k' k)
    → select
        (λ (s : Subscription). here.matches s.topic_filter topic)
        (map (entry owner template) kinds)
      ≡ map (entry owner template) (select (λ k'. same_kind k' k) kinds)
unfolding select
select-entries here template owner topic k [] h = refl
select-entries here template owner topic k (k' ∷ kinds) h =
    let rest = select-entries here template owner topic k kinds h in
    elim (Bool-cases (same_kind k' k)) [
      | inl same ↦ rw (h k') (rw same (ap (λ l. entry owner template k' ∷ l) rest))
      | inr other ↦ rw (h k') (rw other rest)
    ]

pub select-received :
    (side : Side) (k : Kind)
    → receives side k ≡ true
    → select (λ k'. same_kind k' k) (received side) ≡ k ∷ []
unfolding select
select-received Side.local state r = refl
select-received Side.local visualization r = refl
select-received Side.local connection r = refl
select-received Side.local factsheet r = refl
select-received Side.local order r = absurd (cc r)
select-received Side.local instant_actions r = absurd (cc r)
select-received Side.local responses r = absurd (cc r)
select-received Side.local zone_set r = absurd (cc r)
select-received Side.cloud state r = absurd (cc r)
select-received Side.cloud visualization r = absurd (cc r)
select-received Side.cloud connection r = absurd (cc r)
select-received Side.cloud factsheet r = absurd (cc r)
select-received Side.cloud order r = refl
select-received Side.cloud instant_actions r = refl
select-received Side.cloud responses r = refl
select-received Side.cloud zone_set r = refl
