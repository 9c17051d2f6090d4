-- ===== src/Recorder/Shown.antt =====
-- From a message that the recorder is given to the record of its robot.
use syrius_orbit_daemon.Common.{
  All-In, ℕ, ◌+◌, ◌≤◌, ◌≡◌, refl, some, List, [], ◌∷◌, ◌++◌, Bytes, text, ◌==◌, In, inl, inr,
}
use syrius_orbit_daemon.Codec.{Codec}
use syrius_orbit_daemon.Topic.{TopicContext}
use syrius_orbit_daemon.Schema.Enums.{connection_state_name}
use syrius_orbit_daemon.Schema.Messages.{Connection}
use syrius_orbit_daemon.Schema.State.{State}
use syrius_orbit_daemon.Db.Events.{Event, Table, insert}
use syrius_orbit_daemon.Db.Events.Log.{IsLog}
use syrius_orbit_daemon.Db.Events.Exact.{IsScan, IsLatest}
use syrius_orbit_daemon.Db.Robots.{Robot, find_by_id}
use syrius_orbit_daemon.Mqtt.Messages.{connection_message, state_message}
use syrius_orbit_daemon.Projection.{ReadModel, cycle}
use syrius_orbit_daemon.Projection.Fresh.Columns.{
  connection_state_current, state_current, state_view, reported,
}
use syrius_orbit_daemon.Recorder.{robot_name, event_of, uplink, insert_event, record_message}
use syrius_orbit_daemon.Recorder.Rows.{IsRecorded, Tidy-IsSnapshotLog, record_message-IsRecorded}

pub In-last : {A : Type 0} (xs : List A) (x : A) → In x (xs ++ (x ∷ []))
In-last [] x = inl refl
In-last (y ∷ xs) x = inr (In-last xs x)

-- The row that an inserted event becomes.
abbrev pub row_of : (ℕ → Bytes) → Event → Table → Event
row_of clock event t = record event { id = t.sequence + 1; received_at = clock t.sequence }

pub insert-IsLatest :
    (clock : ℕ → Bytes) (event : Event) (t : Table)
    → IsLog (insert (clock t.sequence) event t).1
    → IsLatest event.topic (insert (clock t.sequence) event t).1.rows (row_of clock event t)
unfolding insert
insert-IsLatest clock event t log = record {
  logged = In-last t.rows (row_of clock event t);
  of_topic = refl;
  maximal = λ x i _ _.
      All-In (λ e. e.id ≤ t.sequence + 1) (t.rows ++ (row_of clock event t ∷ [])) x log.bounded i;
}

module _ (scan : List Event → List Event) (c : Codec) (clock : ℕ → Bytes) (context : TopicContext)
    (t : Table) (m : ReadModel) (s : IsScan scan) (recorded : IsRecorded t) where
  -- A connection message that the recorder is given on top of any recorded log shows in the next
  -- projection cycle: the robot of the context is in the read model, under manufacturer.serialNumber,
  -- with the message's connection state; if the message can be read back from its JSON.
  pub connection-recorded :
      (msg : Connection)
      → c.parse_connection (c.dump_connection msg) ≡ some msg
      → let t' = record_message c clock context (connection_message msg) t in
        (r : Robot) × (find_by_id (robot_name context) (cycle scan c t' m).robots ≡ some r)
        × (r.connection_state ≡ connection_state_name msg.connection_state)
  unfolding record_message insert_event insert ◌==◌
  connection-recorded msg readable =
      let r = record_message-IsRecorded c clock context (connection_message msg) t recorded in
      let t' = record_message c clock context (connection_message msg) t in
      let event =
        event_of (text "connection") (robot_name context) context uplink msg.header_id msg.version
          msg.timestamp (c.dump_connection msg) in
      connection_state_current scan c t' m (row_of clock event t) s r.log msg
        (Tidy-IsSnapshotLog (text "connection") t' refl r.tidy)
        (insert-IsLatest clock event t r.log) readable

  -- A state message that the recorder is given on top of any recorded log shows in the next
  -- projection cycle: the robot of the context is in the read model, under
  -- manufacturer.serialNumber, with the message's operating mode, driving, paused (false if the
  -- message lacks it), battery level and charging; if the message can be read back from its JSON.
  pub state-recorded :
      (msg : State)
      → c.parse_state (c.dump_state msg) ≡ some msg
      → let t' = record_message c clock context (state_message msg) t in
        (r : Robot) × (find_by_id (robot_name context) (cycle scan c t' m).robots ≡ some r)
        × (state_view r ≡ reported msg)
  unfolding record_message insert_event insert ◌==◌
  state-recorded msg readable =
      let r = record_message-IsRecorded c clock context (state_message msg) t recorded in
      let t' = record_message c clock context (state_message msg) t in
      let event =
        event_of (text "state") (robot_name context) context uplink msg.header_id msg.version
          msg.timestamp (c.dump_state msg) in
      state_current scan c t' m (row_of clock event t) s r.log msg
        (Tidy-IsSnapshotLog (text "state") t' refl r.tidy) (insert-IsLatest clock event t r.log)
        readable
