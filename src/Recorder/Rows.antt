-- ===== src/Recorder/Rows.antt =====
-- The rows that the recorder appends, and the log that they make up.
use syrius_orbit_daemon.Common.{
  All-In, ℕ, ◌≡◌, refl, sym, subst, Bool, true, ◌||◌, List, [], ◌∷◌, ◌++◌, Bytes, text, ◌==◌,
  fold_left, All,
}
use syrius_orbit_daemon.Codec.{Codec}
use syrius_orbit_daemon.Topic.{TopicContext}
use syrius_orbit_daemon.Db.Cells.{Int64}
use syrius_orbit_daemon.Db.Events.{Event, Table, insert, empty_table}
use syrius_orbit_daemon.Db.Events.Log.{IsLog, insert-IsLog, empty_table-IsLog}
use syrius_orbit_daemon.Mqtt.Messages.{
  Message, state_message, visualization_message, connection_message, factsheet_message,
  order_message, instant_actions_message, responses_message, zone_set_message,
}
use syrius_orbit_daemon.Recorder.{
  robot_name, event_of, insert_event, insert_actions, insert_responses, record_message,
}
use syrius_orbit_daemon.Projection.Fresh.{IsSnapshotLog}

-- The topics whose latest event per item is the latest per robot.
abbrev pub is_snapshot : Bytes → Bool
is_snapshot topic =
    topic == text "state"
    || topic == text "visualization"
    || topic == text "connection"
    || topic == text "factsheet"

abbrev pub Tidy : Event → Type 0
Tidy e = is_snapshot e.topic ≡ true → e.item_id ≡ e.robot_id

pub record IsRecorded (t : Table) : Type 0 where
  pub log : IsLog t
  pub tidy : All Tidy t.rows

pub All-append :
    {A : Type 0} (P : A → Type 0) (xs : List A) (x : A) → All P xs → P x → All P (xs ++ (x ∷ []))
All-append P [] x h p = (p, tt)
All-append P (y ∷ xs) x h p = (h.0, All-append P xs x h.1 p)

pub Tidy-IsSnapshotLog :
    (topic : Bytes) (t : Table) → is_snapshot topic ≡ true → All Tidy t.rows → IsSnapshotLog topic t
Tidy-IsSnapshotLog topic t p h x i e =
    All-In Tidy t.rows x h i (subst (λ s. is_snapshot s ≡ true) (sym e) p)

insert_event-IsRecorded :
    (clock : ℕ → Bytes) (topic item_id : Bytes) (context : TopicContext) (direction : Bytes)
    (header_id : Int64) (version timestamp payload : Bytes) (t : Table)
    → (is_snapshot topic ≡ true → item_id ≡ robot_name context)
    → IsRecorded t
    → IsRecorded
        (insert_event clock topic item_id context direction header_id version timestamp payload t)
unfolding insert_event insert
insert_event-IsRecorded clock topic item_id context direction header_id version timestamp payload t
      h r =
    let event = event_of topic item_id context direction header_id version timestamp payload in
    record {
      log = (insert-IsLog (clock t.sequence) event t r.log).0;
      tidy = All-append Tidy t.rows _ r.tidy h;
    }

pub fold_left-keeps :
    {S A : Type 0} (P : S → Type 0) (f : S → A → S) (s : S) (xs : List A)
    → ((s : S) (x : A) → P s → P (f s x))
    → P s
    → P (fold_left f s xs)
unfolding fold_left
fold_left-keeps P f s [] k h = h
fold_left-keeps P f s (x ∷ xs) k h = fold_left-keeps P f (f s x) xs k (k s x h)

module _ (c : Codec) (clock : ℕ → Bytes) where
  pub record_message-IsRecorded :
      (context : TopicContext) (message : Message) (t : Table)
      → IsRecorded t
      → IsRecorded (record_message c clock context message t)
  unfolding record_message insert_actions insert_responses ◌==◌
  record_message-IsRecorded context (state_message msg) t r =
      insert_event-IsRecorded clock _ _ context _ _ _ _ _ t (λ _. refl) r
  record_message-IsRecorded context (visualization_message msg) t r =
      insert_event-IsRecorded clock _ _ context _ _ _ _ _ t (λ _. refl) r
  record_message-IsRecorded context (connection_message msg) t r =
      insert_event-IsRecorded clock _ _ context _ _ _ _ _ t (λ _. refl) r
  record_message-IsRecorded context (factsheet_message msg) t r =
      insert_event-IsRecorded clock _ _ context _ _ _ _ _ t (λ _. refl) r
  record_message-IsRecorded context (order_message msg) t r =
      insert_event-IsRecorded clock _ _ context _ _ _ _ _ t (λ h. absurd (cc h)) r
  record_message-IsRecorded context (instant_actions_message msg) t r =
      fold_left-keeps IsRecorded _ t msg.actions
        (λ t action r. insert_event-IsRecorded clock _ _ context _ _ _ _ _ t (λ h. absurd (cc h)) r)
        r
  record_message-IsRecorded context (responses_message msg) t r =
      fold_left-keeps IsRecorded _ t msg.responses
        (λ t response r.
          insert_event-IsRecorded clock _ _ context _ _ _ _ _ t (λ h. absurd (cc h)) r)
        r
  record_message-IsRecorded context (zone_set_message msg) t r =
      insert_event-IsRecorded clock _ _ context _ _ _ _ _ t (λ h. absurd (cc h)) r

  -- Everything that was recorded, from an empty table.
  unfoldable pub record_all : List (TopicContext × Message) → Table → Table
  record_all deliveries t =
      fold_left (λ t (d : TopicContext × Message). record_message c clock d.0 d.1 t) t deliveries

  pub record_all-keeps :
      (deliveries : List (TopicContext × Message)) (t : Table)
      → IsRecorded t
      → IsRecorded (record_all deliveries t)
  unfolding record_all
  record_all-keeps deliveries t r =
      fold_left-keeps IsRecorded _ t deliveries (λ t d r. record_message-IsRecorded d.0 d.1 t r) r

  -- Whatever messages are recorded from an empty table on, the ids of the log rise, and the events of
  -- every snapshot topic have their robot's id as their item: what the projections rely on.
  pub record_all-IsRecorded :
      (deliveries : List (TopicContext × Message))
      → let t = record_all deliveries empty_table in
        IsLog t
        × IsSnapshotLog (text "connection") t
        × IsSnapshotLog (text "state") t
        × IsSnapshotLog (text "factsheet") t
  unfolding ◌==◌
  record_all-IsRecorded deliveries =
      let r =
        record_all-keeps deliveries empty_table (record { log = empty_table-IsLog; tidy = tt }) in
      let t = record_all deliveries empty_table in
      (
        r.log,
        Tidy-IsSnapshotLog (text "connection") t refl r.tidy,
        Tidy-IsSnapshotLog (text "state") t refl r.tidy,
        Tidy-IsSnapshotLog (text "factsheet") t refl r.tidy,
      )
