-- ===== src/Mqtt/Subscriber.antt =====
-- VDA5050Subscriber (include/syrius_orbit/mqtt/VDA5050Subscriber.hpp). `C` is the type of the
-- callbacks; an empty std::function is `none`. A callback that throws is logged and the next one
-- runs, so the calls of `dispatch` are a list. Locks are not modelled: each method is one step.
pub mod Laws
use syrius_orbit_daemon.Common.{
  Bool, true, false, not, ◌||◌, Option, none, some, List, [], ◌∷◌, ◌++◌, map, Bytes, is_empty,
  if◌then◌else◌,
}
use syrius_orbit_daemon.Topic.{TopicContext, build_filter, parse_topic_context}
use syrius_orbit_daemon.Mqtt.Messages.{
  Kind, state, visualization, connection, factsheet, order, instant_actions, responses, zone_set,
  suffix, qos,
}
use syrius_orbit_daemon.Mqtt.Client
use syrius_orbit_daemon.Mqtt.Client.{Mosquitto, Client}
use Prim.Native.Nat.{ℕ}

pub record Subscriber (C : Type 0) : Type 0 where
  pub topic_template : TopicContext
  pub initialized : Bool
  pub stopped : Bool
  pub state_callbacks : List C
  pub visualization_callbacks : List C
  pub connection_callbacks : List C
  pub factsheet_callbacks : List C
  pub order_callbacks : List C
  pub instant_actions_callbacks : List C
  pub responses_callbacks : List C
  pub zone_set_callbacks : List C

module _ {C : Type 0} where
  unfoldable pub new_subscriber : TopicContext → Subscriber C
  new_subscriber topic_template = record {
    topic_template = topic_template;
    initialized = false;
    stopped = false;
    state_callbacks = [];
    visualization_callbacks = [];
    connection_callbacks = [];
    factsheet_callbacks = [];
    order_callbacks = [];
    instant_actions_callbacks = [];
    responses_callbacks = [];
    zone_set_callbacks = [];
  }

  -- Init.
  unfoldable pub init : Subscriber C → Bool × Subscriber C
  init s =
      if s.stopped
      then (false, s)
      else if s.initialized
      then (true, s)
      else if is_empty s.topic_template.interface_name || is_empty s.topic_template.major_version
      then (false, s)
      else (true, record s { initialized = true })

  abbrev pub callbacks : Kind → Subscriber C → List C
  callbacks state s = s.state_callbacks
  callbacks visualization s = s.visualization_callbacks
  callbacks connection s = s.connection_callbacks
  callbacks factsheet s = s.factsheet_callbacks
  callbacks order s = s.order_callbacks
  callbacks instant_actions s = s.instant_actions_callbacks
  callbacks responses s = s.responses_callbacks
  callbacks zone_set s = s.zone_set_callbacks

  -- push_back on the list of the kind.
  abbrev pub push : Kind → C → Subscriber C → Subscriber C
  push state c s = record s { state_callbacks = s.state_callbacks ++ (c ∷ []) }
  push visualization c s = record s {
    visualization_callbacks = s.visualization_callbacks ++ (c ∷ []);
  }
  push connection c s = record s { connection_callbacks = s.connection_callbacks ++ (c ∷ []) }
  push factsheet c s = record s { factsheet_callbacks = s.factsheet_callbacks ++ (c ∷ []) }
  push order c s = record s { order_callbacks = s.order_callbacks ++ (c ∷ []) }
  push instant_actions c s = record s {
    instant_actions_callbacks = s.instant_actions_callbacks ++ (c ∷ []);
  }
  push responses c s = record s { responses_callbacks = s.responses_callbacks ++ (c ∷ []) }
  push zone_set c s = record s { zone_set_callbacks = s.zone_set_callbacks ++ (c ∷ []) }

  -- OnState, OnVisualization and the others.
  unfoldable pub on : Kind → Option C → Subscriber C → Bool × Subscriber C
  on kind none s = (false, s)
  on kind (some c) s = if s.stopped then (false, s) else (true, push kind c s)

  -- SubscribeState and the others: the template `subscribe` at the kind's suffix and quality of
  -- service. `owner` names this subscriber in the callback that the client keeps.
  unfoldable pub subscribe : Mosquitto → ℕ → Kind → Subscriber C → Client → Bool × Client
  subscribe mosq owner kind s client =
      if s.stopped
      then (false, client)
      else let filter = build_filter s.topic_template (suffix kind) in
        if is_empty filter
        then (false, client)
        else Client.subscribe mosq filter (qos kind) owner kind client

  -- Stop.
  unfoldable pub stop : Subscriber C → Subscriber C
  stop s = record s {
    stopped = true;
    state_callbacks = [];
    visualization_callbacks = [];
    connection_callbacks = [];
    factsheet_callbacks = [];
    order_callbacks = [];
    instant_actions_callbacks = [];
    responses_callbacks = [];
    zone_set_callbacks = [];
  }

  abbrev pub calls : List C → Option TopicContext → List (C × TopicContext)
  calls cs none = []
  calls cs (some context) = map (λ c. (c, context)) cs

  -- handleState and the others, with `dispatch`: the callbacks that run on a message of this
  -- topic, with the context that they are given.
  unfoldable pub dispatch : Kind → Bytes → Subscriber C → List (C × TopicContext)
  dispatch kind topic s =
      if s.stopped
      then []
      else calls (callbacks kind s) (parse_topic_context s.topic_template topic (suffix kind))
