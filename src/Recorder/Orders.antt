-- ===== src/Recorder/Orders.antt =====
-- From an order that the recorder is given to the order's record.
use syrius_orbit_daemon.Common.{
  ℕ, ◌≡◌, ==_apart, refl, ap, some, List, [], ◌∷◌, Bytes, text, ◌==◌, All, All-In, fold_left,
  value_or,
}
use syrius_orbit_daemon.Codec.{Codec}
use syrius_orbit_daemon.Topic.{TopicContext}
use syrius_orbit_daemon.Schema.Order as Schema_order
use syrius_orbit_daemon.Db.Cells.{Int64, bind_nonempty}
use syrius_orbit_daemon.Db.Events.{Event, Table, insert, empty_table}
use syrius_orbit_daemon.Db.Events.Log.{empty_table-IsLog}
use syrius_orbit_daemon.Db.Events.Exact.{IsScan}
use syrius_orbit_daemon.Db.Orders.{find_by_id}
use syrius_orbit_daemon.Db.Orders as Db_orders
use syrius_orbit_daemon.Mqtt.Messages.{
  Message, state_message, visualization_message, connection_message, factsheet_message,
  order_message, instant_actions_message, responses_message, zone_set_message,
}
use syrius_orbit_daemon.Projection.{ReadModel, cycle}
use syrius_orbit_daemon.Projection.Orders.Fresh.{IsOrderEvent, order_current}
use syrius_orbit_daemon.Recorder.{
  robot_name, event_of, downlink, insert_event, insert_actions, insert_responses, record_message,
}
use syrius_orbit_daemon.Recorder.Rows.{
  record_message-IsRecorded, record_all, record_all-keeps, All-append, fold_left-keeps,
}
use syrius_orbit_daemon.Recorder.Shown.{row_of, insert-IsLatest}

-- The codec reads an order back from what it writes; other messages do not matter.
abbrev pub IsReadable : Codec → Message → Type 0
IsReadable c (order_message msg) = c.parse_order (c.dump_order msg) ≡ some msg
IsReadable c message = Unit

module _ (c : Codec) (clock : ℕ → Bytes) where
  abbrev AllOrders : Table → Type 0
  AllOrders t = All (IsOrderEvent c) t.rows

  insert_event-AllOrders :
      (topic item_id : Bytes) (context : TopicContext) (direction : Bytes) (header_id : Int64)
      (version timestamp payload : Bytes) (t : Table)
      → ((msg : Schema_order.Order)
          → topic ≡ text "order"
          → c.parse_order payload ≡ some msg
          → msg.order_id ≡ item_id)
      → AllOrders t
      → AllOrders
          (insert_event clock topic item_id context direction header_id version timestamp payload t)
  unfolding insert_event insert
  insert_event-AllOrders topic item_id context direction header_id version timestamp payload t h k =
      All-append (IsOrderEvent c) t.rows _ k h

  record_message-AllOrders :
      (context : TopicContext) (message : Message) (t : Table)
      → IsReadable c message
      → AllOrders t
      → AllOrders (record_message c clock context message t)
  unfolding record_message insert_actions insert_responses ◌==◌
  record_message-AllOrders context (state_message msg) t reads r =
      insert_event-AllOrders _ _ context _ _ _ _ _ t (λ _ e _. absurd (==_apart _ _ refl e)) r
  record_message-AllOrders context (visualization_message msg) t reads r =
      insert_event-AllOrders _ _ context _ _ _ _ _ t (λ _ e _. absurd (==_apart _ _ refl e)) r
  record_message-AllOrders context (connection_message msg) t reads r =
      insert_event-AllOrders _ _ context _ _ _ _ _ t (λ _ e _. absurd (==_apart _ _ refl e)) r
  record_message-AllOrders context (factsheet_message msg) t reads r =
      insert_event-AllOrders _ _ context _ _ _ _ _ t (λ _ e _. absurd (==_apart _ _ refl e)) r
  record_message-AllOrders context (order_message msg) t reads r =
      insert_event-AllOrders _ _ context _ _ _ _ _ t
        (λ other _ p.
          let z : other ≡ msg = cc (p, reads) in ap (λ (o : Schema_order.Order). o.order_id) z)
        r
  record_message-AllOrders context (instant_actions_message msg) t reads r =
      fold_left-keeps AllOrders _ t msg.actions
        (λ t action r.
          insert_event-AllOrders _ _ context _ _ _ _ _ t (λ _ e _. absurd (==_apart _ _ refl e)) r)
        r
  record_message-AllOrders context (responses_message msg) t reads r =
      fold_left-keeps AllOrders _ t msg.responses
        (λ t response r.
          insert_event-AllOrders _ _ context _ _ _ _ _ t (λ _ e _. absurd (==_apart _ _ refl e)) r)
        r
  record_message-AllOrders context (zone_set_message msg) t reads r =
      insert_event-AllOrders _ _ context _ _ _ _ _ t (λ _ e _. absurd (==_apart _ _ refl e)) r

  record_all-AllOrders :
      (deliveries : List (TopicContext × Message)) (t : Table)
      → All (λ (d : TopicContext × Message). IsReadable c d.1) deliveries
      → AllOrders t
      → AllOrders (record_all c clock deliveries t)
  unfolding record_all fold_left
  record_all-AllOrders [] t reads r = r
  record_all-AllOrders ((context, message) ∷ deliveries) t reads r =
      unfold record_all in
      record_all-AllOrders deliveries (record_message c clock context message t) reads.1
        (record_message-AllOrders context message t reads.0 r)

  module _ (scan : List Event → List Event) (s : IsScan scan) (m : ReadModel) where
    -- An order that the recorder is given on top of any messages recorded from an empty table on
    -- shows in the next projection cycle under its order_id, assigned to the robot of its context,
    -- with its update id, description, nodes and edges; if the orders among these messages, and this
    -- one, can be read back from their JSON.
    pub order-recorded :
        (deliveries : List (TopicContext × Message)) (context : TopicContext)
        (msg : Schema_order.Order)
        → All (λ (d : TopicContext × Message). IsReadable c d.1) deliveries
        → c.parse_order (c.dump_order msg) ≡ some msg
        → let t = record_all c clock deliveries empty_table in
          let t' = record_message c clock context (order_message msg) t in
          (r : Db_orders.Order) × (find_by_id msg.order_id (cycle scan c t' m).orders ≡ some r)
          × (r.assigned_robot_id ≡ robot_name context)
          × (r.order_update_id ≡ msg.order_update_id)
          × (r.order_description ≡ bind_nonempty (value_or msg.order_description (text "")))
          × (r.nodes ≡ c.dump_nodes msg.nodes)
          × (r.edges ≡ c.dump_edges msg.edges)
    unfolding record_message insert_event insert
    order-recorded deliveries context msg reads readable =
        let t = record_all c clock deliveries empty_table in
        let t' = record_message c clock context (order_message msg) t in
        let r = record_message-IsRecorded c clock context (order_message msg) t (
          record_all-keeps c clock deliveries empty_table
            (record { log = empty_table-IsLog; tidy = tt })) in
        let orders =
          record_message-AllOrders context (order_message msg) t readable
            (record_all-AllOrders deliveries empty_table reads tt) in
        let event =
          event_of (text "order") msg.order_id context downlink msg.header_id msg.version
            msg.timestamp (c.dump_order msg) in
        let (row, found, shows) =
          order_current scan c t' m (row_of clock event t) s r.log msg
            (λ x i. All-In (IsOrderEvent c) t'.rows x orders i)
            (insert-IsLatest clock event t r.log) readable in
        (
          row,
          found,
          ap (λ v. v.0) shows,
          ap (λ v. v.1) shows,
          ap (λ v. v.2) shows,
          ap (λ v. v.3) shows,
          ap (λ v. v.4) shows,
        )
