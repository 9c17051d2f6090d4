-- ===== src/Mqtt/EndPoint/Forward.antt =====
-- What an endpoint subscribes to, and what becomes of a message that a callback publishes on the
-- other side under the context it was given.
use syrius_orbit_daemon.Common.{
  ℕ, ◌≡◌, refl, sym, ap, ◌∙◌, Bool, true, false, not, ◌||◌, some, List, [], ◌∷◌, ◌++◌, map, Bytes,
  is_empty, arith, append_assoc, append-nil, if_ind, Bool-cases, inl, inr,
}
use syrius_orbit_daemon.Topic.{
  TopicContext, expected_prefix, build_topic, build_filter, parse_topic_context,
}
use syrius_orbit_daemon.Topic.Parts.{remainder_of}
use syrius_orbit_daemon.Topic.RoundTrip.{
  IsAddress, build_topic_lem, build_topic-parse_topic_context,
}
use syrius_orbit_daemon.Mqtt.Messages.{
  Kind, Message, kind_of, suffix, qos, state, visualization, connection, factsheet, order,
  instant_actions, responses, zone_set,
}
use syrius_orbit_daemon.Mqtt.Client
use syrius_orbit_daemon.Mqtt.Client.{Mosquitto, Client, Subscription}
use syrius_orbit_daemon.Mqtt.Subscriber
use syrius_orbit_daemon.Mqtt.Subscriber.{Subscriber, dispatch, subscribe, callbacks, new_subscriber}
use syrius_orbit_daemon.Mqtt.Publisher.{
  Serializer, Sent, serialize, publish_kind, publish_message, publish_at, typed_publish, send,
}
use syrius_orbit_daemon.Mqtt.EndPoint.{
  EndPoint, Side, publish, receives, init, subscribe_all, received, new_end_point,
}

-- The call that sends a message of this topic.
abbrev pub sent_as : Bytes → Bytes → Message → Sent
sent_as topic payload message = record {
  topic = topic;
  payload = payload;
  qos = qos (kind_of message);
  retain = false;
}

suffix-nonempty : (kind : Kind) → is_empty (suffix kind) ≡ false
suffix-nonempty state = refl
suffix-nonempty visualization = refl
suffix-nonempty connection = refl
suffix-nonempty factsheet = refl
suffix-nonempty order = refl
suffix-nonempty instant_actions = refl
suffix-nonempty responses = refl
suffix-nonempty zone_set = refl

is_empty-append : (a b : Bytes) → is_empty a ≡ false → is_empty (a ++ b) ≡ false
is_empty-append [] b h = cc h
is_empty-append (x ∷ a) b h = refl

topic-nonempty :
    (c : TopicContext) (kind : Kind) (topic : Bytes)
    → IsAddress c
    → build_topic c (suffix kind) ≡ some topic
    → is_empty topic ≡ false
topic-nonempty c kind topic a h =
    let form = build_topic_lem c (suffix kind) a (suffix-nonempty kind) in
    let e : topic ≡ expected_prefix c ++ remainder_of c.manufacturer c.serial_number (suffix kind) =
      ground arith in
    rw e (is_empty-append _ _ (is_empty-append _ _ a.interface_ne))

module _ (mosq : Mosquitto) (ser : Serializer) where
  publish_at-sent :
      (topic payload : Bytes) (message : Message)
      → is_empty topic ≡ false
      → serialize ser message ≡ some payload
      → mosq.publish topic payload (qos (kind_of message)) false ≡ true
      → publish_at mosq ser (some topic) message (qos (kind_of message)) false
        ≡ (true, sent_as topic payload message ∷ [])
  unfolding publish_at typed_publish send Client.publish
  publish_at-sent topic payload message ne s ok = rw ne (rw s (rw ne (rw ok refl)))

module _ {C : Type 0} where
  -- A message whose topic the subscriber of one endpoint dispatches, published by a running endpoint
  -- of the other direction under the context that the callback was given, goes out under the same topic,
  -- with the quality of service of its kind and not retained, if it can be serialized and the broker
  -- accepts it.
  pub publish-dispatch :
      (mosq : Mosquitto) (ser : Serializer) (s : Subscriber C) (to : EndPoint C) (message : Message)
      (topic payload : Bytes) (context : TopicContext)
      → is_empty s.topic_template.interface_name ≡ false
      → is_empty s.topic_template.major_version ≡ false
      → parse_topic_context s.topic_template topic (suffix (kind_of message)) ≡ some context
      → receives to.side (kind_of message) ≡ false
      → to.publisher_stopped ≡ false
      → serialize ser message ≡ some payload
      → mosq.publish topic payload (qos (kind_of message)) false ≡ true
      → publish mosq ser context message to ≡ (true, sent_as topic payload message ∷ [])
  unfolding publish publish_kind publish_message
  publish-dispatch mosq ser s to message topic payload context ni nv parsed side running ser_ok ok =
      let (built, address, same) =
        build_topic-parse_topic_context s.topic_template context (suffix (kind_of message)) topic ni
          nv (suffix-nonempty (kind_of message)) parsed in
      let sent =
        publish_at-sent mosq ser topic payload message
          (topic-nonempty context (kind_of message) topic address built) ser_ok ok in
      let at_topic = ap (λ t. publish_at mosq ser t message (qos (kind_of message)) false) built in
      rw side (rw running (at_topic ∙ sent))

-- What Subscribe... of the kind leaves in the client.
abbrev pub entry : ℕ → TopicContext → Kind → Subscription
entry owner template kind = record {
  topic_filter = build_filter template (suffix kind);
  owner = owner;
  kind = kind;
}

abbrev pub with_entries : ℕ → TopicContext → List Kind → Client → Client
with_entries owner template kinds client = record client {
  subscriptions = client.subscriptions ++ map (entry owner template) kinds;
}

module _ {C : Type 0} (mosq : Mosquitto) (owner : ℕ) (s : Subscriber C) where
  -- What a call that succeeds leaves in the client.
  abbrev Added : List Kind → Client → Bool × Client → Type 0
  Added kinds client r = r.0 ≡ true → r.1 ≡ with_entries owner s.topic_template kinds client

  subscribe-Added :
      (kind : Kind) (client : Client)
      → Added (kind ∷ []) client (subscribe mosq owner kind s client)
  unfolding subscribe Client.subscribe
  subscribe-Added kind client =
      let filter = build_filter s.topic_template (suffix kind) in
      if_ind (Added (kind ∷ []) client) s.stopped (λ _ h. absurd (cc h))
        λ _.
          if_ind (Added (kind ∷ []) client) (is_empty filter) (λ _ h. absurd (cc h))
            λ _.
              if_ind (Added (kind ∷ []) client) (is_empty filter) (λ _ h. absurd (cc h))
                λ _.
                  if_ind (Added (kind ∷ []) client) (not (mosq.subscribe filter (qos kind)))
                    (λ _ h. absurd (cc h)) (λ _ _. refl)

  subscribe_all-Added :
      (kinds : List Kind) (client : Client)
      → Added kinds client (subscribe_all mosq owner kinds s client)
  unfolding subscribe_all
  subscribe_all-Added [] client =
      λ _. ap (λ l. record client { subscriptions = l }) (sym (append-nil client.subscriptions))
  subscribe_all-Added (kind ∷ kinds) client =
      let one = subscribe mosq owner kind s client in
      if_ind (Added (kind ∷ kinds) client) one.0
        (λ first h.
          subscribe_all-Added kinds one.1 h
          ∙ (ap (with_entries owner s.topic_template kinds) (subscribe-Added kind client first)
              ∙ ap (λ l. record client { subscriptions = l })
                  (append_assoc client.subscriptions (entry owner s.topic_template kind ∷ [])
                    (map (entry owner s.topic_template) kinds))))
        (λ _ h. absurd (cc h))

-- An Init of a new endpoint that succeeds has added, behind the client's subscriptions, one under the
-- filter of the template for each kind that the side receives.
pub init-added :
    (C : Type 0) (mosq : Mosquitto) (owner : ℕ) (side : Side) (template : TopicContext)
    (client : Client)
    → let r = init mosq (new_end_point {C = C} owner side template) client in
      r.0 ≡ true → r.2 ≡ with_entries owner template (received side) client
unfolding init Subscriber.init new_end_point new_subscriber
init-added C mosq owner side template client =
    let s : Subscriber C = record (new_subscriber template) { initialized = true } in
    elim (Bool-cases (is_empty template.interface_name || is_empty template.major_version)) [
      | inl h ↦ rw h (λ f. absurd (cc f))
      | inr h ↦ rw h (subscribe_all-Added mosq owner s (received side) client)
    ]
