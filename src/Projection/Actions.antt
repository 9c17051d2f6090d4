-- ===== src/Projection/Actions.antt =====
-- What a projection cycle does to one instant action's record.
pub mod Fresh
pub mod Patches
pub use syrius_orbit_daemon.Projection.Actions.Patches.*
use syrius_orbit_daemon.Common.{
  ◌≡◌, refl, ap, ◌∙◌, sym, inl, inr, Option, none, some, List, [], ◌∷◌, ◌++◌, Bytes, text, ◌==◌,
  value_or, if◌then◌else◌, Bool-cases, arith,
}
use syrius_orbit_daemon.Codec.{Codec}
use syrius_orbit_daemon.Schema.Enums.{blocking_type_name, grant_type_name}
use syrius_orbit_daemon.Schema.Shapes.{Action}
use syrius_orbit_daemon.Schema.Messages.{InstantActions, Response, Responses}
use syrius_orbit_daemon.Db.Cells.{bind_nonempty}
use syrius_orbit_daemon.Db.Events.{Event, Table, find_latest_by_topic}
use syrius_orbit_daemon.Db.Table.Laws.{changed}
use syrius_orbit_daemon.Db.Actions.{InstantAction, ActionRow, find_by_id}
use syrius_orbit_daemon.Db.Actions.Laws.{
  new_action, find_by_id-upsert_from_action, find_by_id-upsert_from_response, see_action,
  see_status,
}
use syrius_orbit_daemon.Projection.{
  ReadModel, params_json, write_action, write_response, write_instant_actions, write_responses,
  project_instant_actions, project_responses, project_or_skip, cycle,
}
use syrius_orbit_daemon.Projection.Touches.{
  Touch, touch_all, gather, fold-touch_all, touch_all_idem, touch_all-append,
}
use syrius_orbit_daemon.Projection.Frames.{phase, before_actions, actions-cycle, actions-before}

abbrev pub touch_if : Bytes → Bytes → ActionPatch → InstantAction → List ActionTouch
touch_if j id p base = if id == j then (p, base) ∷ [] else []

touch_if_lem :
    (j id : Bytes) (p : ActionPatch) (base : InstantAction) (see : InstantAction → InstantAction)
    (o : Option InstantAction)
    → ((r : InstantAction) → see r ≡ apply p r)
    → (if id == j then some (changed see (see base) o) else o)
      ≡ touch_all action_patches (touch_if j id p base) o
unfolding touch_all
touch_if_lem j id p base see none h = elim (Bool-cases (id == j)) [
  | inl same ↦ rw same (ap some (h base))
  | inr other ↦ rw other
]
touch_if_lem j id p base see (some r) h = elim (Bool-cases (id == j)) [
  | inl same ↦ rw same (ap some (h r))
  | inr other ↦ rw other
]

-- The write that one action of an instantActions message makes to the record `j`.
abbrev pub action_write : Codec → Bytes → Event → Action → List ActionTouch
action_write c j e a =
    touch_if j a.action_id
      (record {
        action = some (record {
          action_type = a.action_type;
          action_descriptor = value_or a.action_descriptor (text "");
          blocking_type = blocking_type_name a.blocking_type;
          action_parameters = params_json c a;
          robot_id = e.robot_id;
        });
        status = none;
        at = e.received_at;
      })
      (new_action a.action_id a.action_type e.robot_id e.received_at)

-- The write that one response makes to the record `j`.
abbrev pub response_write : Bytes → Event → Response → List ActionTouch
response_write j e r =
    touch_if j r.request_id
      (record { action = none; status = some (grant_type_name r.grant_type); at = e.received_at })
      (new_action r.request_id (text "zoneRequest") e.robot_id e.received_at)

abbrev pub actions_touch : Codec → Bytes → Event → Option InstantActions → List ActionTouch
actions_touch c j e none = []
actions_touch c j e (some msg) = gather (action_write c j e) msg.actions

abbrev pub responses_touch : Bytes → Event → Option Responses → List ActionTouch
responses_touch j e none = []
responses_touch j e (some msg) = gather (response_write j e) msg.responses

action-write :
    (c : Codec) (j : Bytes) (e : Event) (rows : List ActionRow) (a : Action)
    → find_by_id j (write_action c e rows a)
      ≡ touch_all action_patches (action_write c j e a) (find_by_id j rows)
unfolding write_action
action-write c j e rows a =
    let descriptor = value_or a.action_descriptor (text "") in
    let blocking = blocking_type_name a.blocking_type in
    find_by_id-upsert_from_action a.action_id a.action_type descriptor blocking (params_json c a)
      e.robot_id e.received_at j rows
    ∙ touch_if_lem j a.action_id _ (new_action a.action_id a.action_type e.robot_id e.received_at)
        (see_action a.action_type descriptor blocking (params_json c a) e.robot_id e.received_at)
        (find_by_id j rows) (λ r. refl)

response-write :
    (j : Bytes) (e : Event) (rows : List ActionRow) (r : Response)
    → find_by_id j (write_response e rows r)
      ≡ touch_all action_patches (response_write j e r) (find_by_id j rows)
unfolding write_response
response-write j e rows r =
    find_by_id-upsert_from_response r.request_id e.robot_id (grant_type_name r.grant_type)
      e.received_at j rows
    ∙ touch_if_lem j r.request_id _
        (new_action r.request_id (text "zoneRequest") e.robot_id e.received_at)
        (see_status (grant_type_name r.grant_type) e.received_at) (find_by_id j rows) (λ r. refl)

actions-touch :
    (c : Codec) (j : Bytes) (e : Event) (o : Option InstantActions) (m : ReadModel)
    → find_by_id j (value_or (write_instant_actions c e o m) m).actions
      ≡ touch_all action_patches (actions_touch c j e o) (find_by_id j m.actions)
unfolding write_instant_actions
actions-touch c j e none m = unfold touch_all in refl
actions-touch c j e (some msg) m =
    fold-touch_all action_patches (find_by_id j) (write_action c e) (action_write c j e) msg.actions
      m.actions (action-write c j e)

responses-touch :
    (j : Bytes) (e : Event) (o : Option Responses) (m : ReadModel)
    → find_by_id j (value_or (write_responses e o m) m).actions
      ≡ touch_all action_patches (responses_touch j e o) (find_by_id j m.actions)
unfolding write_responses
responses-touch j e none m = unfold touch_all in refl
responses-touch j e (some msg) m =
    fold-touch_all action_patches (find_by_id j) (write_response e) (response_write j e)
      msg.responses m.actions (response-write j e)

module _ (scan : List Event → List Event) (c : Codec) (events : Table) (j : Bytes) where
  abbrev pub actions_touches : List ActionTouch
  actions_touches =
      gather (λ e. actions_touch c j e (c.parse_instant_actions e.payload))
        (find_latest_by_topic scan (text "instantActions") events)

  abbrev pub responses_touches : List ActionTouch
  responses_touches =
      gather (λ e. responses_touch j e (c.parse_responses e.payload))
        (find_latest_by_topic scan (text "responses") events)

  pub action-cycle :
      (m : ReadModel)
      → find_by_id j (cycle scan c events m).actions
        ≡ touch_all action_patches (actions_touches ++ responses_touches) (find_by_id j m.actions)
  action-cycle m =
      let before = before_actions scan c events m in
      let after =
        phase scan c events m (project_instant_actions c) (text "instantActions") before in
      ap (find_by_id j) (actions-cycle scan c events m)
      ∙ fold-touch_all action_patches (λ m. find_by_id j m.actions)
          (project_or_skip (project_responses c))
          (λ e. responses_touch j e (c.parse_responses e.payload))
          (find_latest_by_topic scan (text "responses") events) after
          (λ m e.
            unfold project_or_skip project_responses in
            responses-touch j e (c.parse_responses e.payload) m)
      ∙ ap (touch_all action_patches responses_touches) (
          fold-touch_all action_patches (λ m. find_by_id j m.actions)
            (project_or_skip (project_instant_actions c))
            (λ e. actions_touch c j e (c.parse_instant_actions e.payload))
            (find_latest_by_topic scan (text "instantActions") events) before
            (λ m e.
              unfold project_or_skip project_instant_actions in
              actions-touch c j e (c.parse_instant_actions e.payload) m)
          ∙ ap (λ (o : List ActionRow). touch_all action_patches actions_touches (find_by_id j o))
              (actions-before scan c events m))
      ∙ sym (
          touch_all-append action_patches actions_touches responses_touches
            (find_by_id j m.actions))

  -- Running the same cycle again leaves every action's record as the first run left it.
  pub action-cycle_idem :
      (m : ReadModel)
      → find_by_id j (cycle scan c events (cycle scan c events m)).actions
        ≡ find_by_id j (cycle scan c events m).actions
  action-cycle_idem m =
      action-cycle (cycle scan c events m)
      ∙ ap (touch_all action_patches (actions_touches ++ responses_touches)) (action-cycle m)
      ∙ touch_all_idem action_patches (actions_touches ++ responses_touches)
          (find_by_id j m.actions)
      ∙ sym (action-cycle m)
