-- ===== src/Projection/Actions/Fresh.antt =====
-- How current an instant action's record is after a projection cycle.
use syrius_orbit_daemon.Common.{
  ◌≡◌, refl, inl, inr, Option, none, some, List, Bytes, text, ◌==◌, ==_iff, value_or, Bool-cases,
  Option-cases, In,
}
use syrius_orbit_daemon.Codec.{Codec}
use syrius_orbit_daemon.Schema.Enums.{blocking_type_name, grant_type_name}
use syrius_orbit_daemon.Schema.Shapes.{Action}
use syrius_orbit_daemon.Schema.Messages.{InstantActions, Response, Responses}
use syrius_orbit_daemon.Db.Cells.{bind_nonempty}
use syrius_orbit_daemon.Db.Events.{Event, Table, find_latest_by_topic}
use syrius_orbit_daemon.Db.Events.Log.{IsLog}
use syrius_orbit_daemon.Db.Events.Exact.{IsScan, IsLatest, find_latest_by_topic_iff}
use syrius_orbit_daemon.Db.Actions.{InstantAction, find_by_id}
use syrius_orbit_daemon.Projection.{ReadModel, params_json, cycle}
use syrius_orbit_daemon.Projection.Touches.{touch_all, touch_all-append}
use syrius_orbit_daemon.Projection.Touches.Views.{
  Keeps, Shows, Shows-keep, gather-Keeps, gather-Shows,
}
use syrius_orbit_daemon.Projection.Actions.{
  ActionPatch, apply, action_patches, action_write, response_write, actions_touch, responses_touch,
  actions_touches, responses_touches, action-cycle, touch_if,
}

touch_if-Shows :
    {B : Type 0} (view : InstantAction → B) (v : B) (j id : Bytes) (p : ActionPatch)
    (base : InstantAction) (o : Option InstantAction)
    → id ≡ j
    → ((r : InstantAction) → view (apply p r) ≡ v)
    → Shows action_patches view v (touch_all action_patches (touch_if j id p base) o)
unfolding touch_all
touch_if-Shows view v j id p base o own h = rw ((==_iff id j).1 own) (_, refl, h _)

touch_if-Keeps :
    {B : Type 0} (view : InstantAction → B) (v : B) (j id : Bytes) (p : ActionPatch)
    (base : InstantAction)
    → (id ≡ j → (r : InstantAction) → view r ≡ v → view (apply p r) ≡ v)
    → Keeps action_patches view v (touch_if j id p base)
touch_if-Keeps view v j id p base h = elim (Bool-cases (id == j)) [
  | inl same ↦ rw same (h ((==_iff id j).0 same), tt)
  | inr other ↦ rw other tt
]

-- No two responses of a message answer the same request.
abbrev pub IsOnlyResponse : Responses → Response → Type 0
IsOnlyResponse msg r =
    In r msg.responses × ((x : Response) → In x msg.responses → x.request_id ≡ r.request_id → x ≡ r)

-- No two actions of a message have the same id.
abbrev pub IsOnlyAction : InstantActions → Action → Type 0
IsOnlyAction msg a =
    In a msg.actions × ((x : Action) → In x msg.actions → x.action_id ≡ a.action_id → x ≡ a)

-- The columns that an action of an instantActions message sets, for a robot.
abbrev pub demanded_of :
    Codec → Bytes → Action → Bytes × Option Bytes × Bytes × Option Bytes × Bytes
demanded_of c robot_id a = (
  a.action_type,
  bind_nonempty (value_or a.action_descriptor (text "")),
  blocking_type_name a.blocking_type,
  bind_nonempty (params_json c a),
  robot_id,
)

module _ (scan : List Event → List Event) (c : Codec) (t : Table) (m : ReadModel) (e : Event)
    (s : IsScan scan) (log : IsLog t) where
  -- The latest responses events that answer the request grant it alike.
  abbrev pub Agree : Response → Type 0
  Agree r =
      (x : Event) (msg : Responses) (y : Response)
      → IsLatest (text "responses") t.rows x
      → c.parse_responses x.payload ≡ some msg
      → In y msg.responses
      → y.request_id ≡ r.request_id
      → grant_type_name y.grant_type ≡ grant_type_name r.grant_type

  abbrev status : InstantAction → Bytes
  status a = a.action_status

  response-Keeps :
      (r : Response) (x : Event)
      → Agree r
      → IsLatest (text "responses") t.rows x
      → Keeps action_patches status
          (grant_type_name r.grant_type)
          (responses_touch r.request_id x (c.parse_responses x.payload))
  response-Keeps r x agree latest = elim (Option-cases (c.parse_responses x.payload)) [
    | inl fails ↦ rw fails tt
    | inr (msg, parsed) ↦ rw parsed (
        gather-Keeps action_patches status (grant_type_name r.grant_type)
          (response_write r.request_id x) msg.responses
          (λ y k.
            touch_if-Keeps status (grant_type_name r.grant_type) r.request_id y.request_id _ _
              (λ same a _. agree x msg y latest parsed k same)))
  ]

  pub response_current :
      (msg : Responses) (r : Response)
      → IsLatest (text "responses") t.rows e
      → c.parse_responses e.payload ≡ some msg
      → In r msg.responses
      → Agree r
      → Shows action_patches
          (λ (a : InstantAction). a.action_status)
          (grant_type_name r.grant_type)
          (find_by_id r.request_id (cycle scan c t m).actions)
  response_current msg r latest parsed i agree =
      let j = r.request_id in
      let v = grant_type_name r.grant_type in
      let start = find_by_id j m.actions in
      let found = λ (x : Event). find_latest_by_topic_iff scan (text "responses") t x s log in
      rw
        (
          action-cycle scan c t j m,
          touch_all-append action_patches (actions_touches scan c t j)
              (responses_touches scan c t j) start,
        )
        (gather-Shows action_patches status v
          (λ (x : Event). responses_touch j x (c.parse_responses x.payload)) e
          (find_latest_by_topic scan (text "responses") t)
          (touch_all action_patches (actions_touches scan c t j) start)
          (λ o. rw parsed (
            gather-Shows action_patches status v (response_write j e) r msg.responses o
              (λ o. touch_if-Shows status v j r.request_id _ _ o refl (λ a. refl))
              (λ y k.
                touch_if-Keeps status v j y.request_id _ _
                  (λ same a _. agree e msg y latest parsed k same))
              i))
          (λ x k. response-Keeps r x agree ((found x).0 k)) ((found e).1 latest))

  abbrev pub action_view : InstantAction → Bytes × Option Bytes × Bytes × Option Bytes × Bytes
  action_view a =
      (a.action_type, a.action_descriptor, a.blocking_type, a.action_parameters, a.robot_id)

  abbrev demanded : Event → Action → Bytes × Option Bytes × Bytes × Option Bytes × Bytes
  demanded x a = demanded_of c x.robot_id a

  -- The latest instantActions events with an action of this id demand the same of it.
  abbrev pub Demand : Action → Type 0
  Demand a =
      (x : Event) (msg : InstantActions) (y : Action)
      → IsLatest (text "instantActions") t.rows x
      → c.parse_instant_actions x.payload ≡ some msg
      → In y msg.actions
      → y.action_id ≡ a.action_id
      → demanded x y ≡ demanded e a

  responses-Keeps :
      (v : Bytes × Option Bytes × Bytes × Option Bytes × Bytes) (j : Bytes) (x : Event)
      (o : Option Responses)
      → Keeps action_patches action_view v (responses_touch j x o)
  responses-Keeps v j x none = tt
  responses-Keeps v j x (some msg) =
      gather-Keeps action_patches action_view v (response_write j x) msg.responses
        (λ r _. touch_if-Keeps action_view v j r.request_id _ _ (λ _ a h. h))

  action-Keeps :
      (a : Action) (x : Event)
      → Demand a
      → IsLatest (text "instantActions") t.rows x
      → Keeps action_patches action_view
          (demanded e a)
          (actions_touch c a.action_id x (c.parse_instant_actions x.payload))
  action-Keeps a x demand latest = elim (Option-cases (c.parse_instant_actions x.payload)) [
    | inl fails ↦ rw fails tt
    | inr (msg, parsed) ↦ rw parsed (
        gather-Keeps action_patches action_view (demanded e a) (action_write c a.action_id x)
          msg.actions
          (λ y k.
            touch_if-Keeps action_view (demanded e a) a.action_id y.action_id _ _
              (λ same r _. demand x msg y latest parsed k same)))
  ]

  pub action_current :
      (msg : InstantActions) (a : Action)
      → IsLatest (text "instantActions") t.rows e
      → c.parse_instant_actions e.payload ≡ some msg
      → In a msg.actions
      → Demand a
      → Shows action_patches action_view
          (demanded e a)
          (find_by_id a.action_id (cycle scan c t m).actions)
  action_current msg a latest parsed i demand =
      let j = a.action_id in
      let v = demanded e a in
      let start = find_by_id j m.actions in
      let found = λ (x : Event). find_latest_by_topic_iff scan (text "instantActions") t x s log in
      rw
        (
          action-cycle scan c t j m,
          touch_all-append action_patches (actions_touches scan c t j)
              (responses_touches scan c t j) start,
        )
        (Shows-keep action_patches action_view v (responses_touches scan c t j)
          (touch_all action_patches (actions_touches scan c t j) start)
          (gather-Keeps action_patches action_view v
            (λ (x : Event). responses_touch j x (c.parse_responses x.payload))
            (find_latest_by_topic scan (text "responses") t)
            (λ x _. responses-Keeps v j x (c.parse_responses x.payload)))
          (gather-Shows action_patches action_view v
            (λ (x : Event). actions_touch c j x (c.parse_instant_actions x.payload)) e
            (find_latest_by_topic scan (text "instantActions") t) start
            (λ o. rw parsed (
              gather-Shows action_patches action_view v (action_write c j e) a msg.actions o
                (λ o. touch_if-Shows action_view v j a.action_id _ _ o refl (λ r. refl))
                (λ y k.
                  touch_if-Keeps action_view v j y.action_id _ _
                    (λ same r _. demand e msg y latest parsed k same))
                i))
            (λ x k. action-Keeps a x demand ((found x).0 k)) ((found e).1 latest)))
