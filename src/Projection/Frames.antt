-- ===== src/Projection/Frames.antt =====
-- Which table each entry of the projection cycle writes.
use syrius_orbit_daemon.Common.{◌≡◌, refl, ◌∙◌, List, [], ◌∷◌, Bytes, text, fold_left, arith}
use syrius_orbit_daemon.Codec.{Codec}
use syrius_orbit_daemon.Db.Events.{Event, Table, find_latest_by_topic}
use syrius_orbit_daemon.Projection.{
  ReadModel, Projector, project_connection, project_state, project_factsheet, project_order,
  project_instant_actions, project_responses, project_or_skip, cycle,
}

-- A projector leaves a view of the read model alone.
abbrev pub Leaves : {B : Type 0} → (ReadModel → B) → Projector → Type 0
Leaves view project = (e : Event) (m : ReadModel) → view (project_or_skip project m e) ≡ view m

pub fold-Leaves :
    {B : Type 0} (view : ReadModel → B) (project : Projector) (events : List Event) (m : ReadModel)
    → Leaves view project
    → view (fold_left (project_or_skip project) m events) ≡ view m
unfolding fold_left
fold-Leaves view project [] m h = refl
fold-Leaves view project (e ∷ events) m h =
    fold-Leaves view project events (project_or_skip project m e) h ∙ h e m

module _ (c : Codec) where
  pub order-Leaves_robots : Leaves (λ m. m.robots) (project_order c)
  unfolding project_or_skip project_order
  order-Leaves_robots e m = ground arith

  pub instant_actions-Leaves_robots : Leaves (λ m. m.robots) (project_instant_actions c)
  unfolding project_or_skip project_instant_actions
  instant_actions-Leaves_robots e m = ground arith

  pub responses-Leaves_robots : Leaves (λ m. m.robots) (project_responses c)
  unfolding project_or_skip project_responses
  responses-Leaves_robots e m = ground arith

  pub connection-Leaves_orders : Leaves (λ m. m.orders) (project_connection c)
  unfolding project_or_skip project_connection
  connection-Leaves_orders e m = ground arith

  pub state-Leaves_orders : Leaves (λ m. m.orders) (project_state c)
  unfolding project_or_skip project_state
  state-Leaves_orders e m = ground arith

  pub instant_actions-Leaves_orders : Leaves (λ m. m.orders) (project_instant_actions c)
  unfolding project_or_skip project_instant_actions
  instant_actions-Leaves_orders e m = ground arith

  pub responses-Leaves_orders : Leaves (λ m. m.orders) (project_responses c)
  unfolding project_or_skip project_responses
  responses-Leaves_orders e m = ground arith

  pub connection-Leaves_actions : Leaves (λ m. m.actions) (project_connection c)
  unfolding project_or_skip project_connection
  connection-Leaves_actions e m = ground arith

  pub state-Leaves_actions : Leaves (λ m. m.actions) (project_state c)
  unfolding project_or_skip project_state
  state-Leaves_actions e m = ground arith

  pub order-Leaves_actions : Leaves (λ m. m.actions) (project_order c)
  unfolding project_or_skip project_order
  order-Leaves_actions e m = ground arith

pub factsheet-Leaves_orders : Leaves (λ m. m.orders) project_factsheet
unfolding project_or_skip project_factsheet
factsheet-Leaves_orders e m = refl

pub factsheet-Leaves_actions : Leaves (λ m. m.actions) project_factsheet
unfolding project_or_skip project_factsheet
factsheet-Leaves_actions e m = refl

module _ (scan : List Event → List Event) (c : Codec) (events : Table) (m : ReadModel) where
  abbrev pub latest : Bytes → List Event
  latest topic = find_latest_by_topic scan topic events

  abbrev pub phase : Projector → Bytes → ReadModel → ReadModel
  phase project topic m = fold_left (project_or_skip project) m (latest topic)

  -- The tables after a cycle, each from the entries that write it.
  pub robots-cycle :
      (cycle scan c events m).robots
      ≡ (phase project_factsheet (text "factsheet") (
          phase
            (project_state c)
            (text "state")
            (phase (project_connection c) (text "connection") m))).robots
  unfolding cycle
  robots-cycle =
      fold-Leaves (λ m. m.robots) (project_responses c) (latest (text "responses")) _
        (responses-Leaves_robots c)
      ∙ fold-Leaves (λ m. m.robots) (project_instant_actions c) (latest (text "instantActions")) _
          (instant_actions-Leaves_robots c)
      ∙ fold-Leaves (λ m. m.robots) (project_order c) (latest (text "order")) _
          (order-Leaves_robots c)

  pub orders-cycle :
      (cycle scan c events m).orders
      ≡ (phase (project_order c) (text "order") (
          phase project_factsheet (text "factsheet") (
            phase
              (project_state c)
              (text "state")
              (phase (project_connection c) (text "connection") m)))).orders
  unfolding cycle
  orders-cycle =
      fold-Leaves (λ m. m.orders) (project_responses c) (latest (text "responses")) _
        (responses-Leaves_orders c)
      ∙ fold-Leaves (λ m. m.orders) (project_instant_actions c) (latest (text "instantActions")) _
          (instant_actions-Leaves_orders c)

  -- The robots' entries do not write orders.
  pub orders-before :
      (phase project_factsheet (text "factsheet") (
        phase
          (project_state c)
          (text "state")
          (phase (project_connection c) (text "connection") m))).orders
      ≡ m.orders
  orders-before =
      fold-Leaves (λ m. m.orders) project_factsheet (latest (text "factsheet")) _
        factsheet-Leaves_orders
      ∙ fold-Leaves (λ m. m.orders) (project_state c) (latest (text "state")) _
          (state-Leaves_orders c)
      ∙ fold-Leaves (λ m. m.orders) (project_connection c) (latest (text "connection")) _
          (connection-Leaves_orders c)

  abbrev pub before_actions : ReadModel
  before_actions = phase (project_order c) (text "order") (
      phase project_factsheet (text "factsheet") (
        phase (project_state c) (text "state")
          (phase (project_connection c) (text "connection") m)))

  pub actions-cycle :
      (cycle scan c events m).actions
      ≡ (phase
          (project_responses c)
          (text "responses")
          (phase (project_instant_actions c) (text "instantActions") before_actions)).actions
  unfolding cycle
  actions-cycle = refl

  pub actions-before : before_actions.actions ≡ m.actions
  actions-before =
      fold-Leaves (λ m. m.actions) (project_order c) (latest (text "order")) _
        (order-Leaves_actions c)
      ∙ fold-Leaves (λ m. m.actions) project_factsheet (latest (text "factsheet")) _
          factsheet-Leaves_actions
      ∙ fold-Leaves (λ m. m.actions) (project_state c) (latest (text "state")) _
          (state-Leaves_actions c)
      ∙ fold-Leaves (λ m. m.actions) (project_connection c) (latest (text "connection")) _
          (connection-Leaves_actions c)
