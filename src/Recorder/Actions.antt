-- ===== src/Recorder/Actions.antt =====
-- From instant actions and responses that the recorder is given to the records of the actions.
use syrius_orbit_daemon.Common.{◌≡◌, some, Bytes, text, In}
use syrius_orbit_daemon.Codec.{Codec}
use syrius_orbit_daemon.Schema.Shapes.{Action}
use syrius_orbit_daemon.Schema.Messages.{InstantActions, Response, Responses}
use syrius_orbit_daemon.Db.Events.{Event, Table}

-- No recorded responses message that answers this request stands under another request.
abbrev pub AnsweredAlone : Codec → Table → Bytes → Type 0
AnsweredAlone c t request_id =
    (x : Event) (msg : Responses) (y : Response)
    → In x t.rows
    → x.topic ≡ text "responses"
    → c.parse_responses x.payload ≡ some msg
    → In y msg.responses
    → y.request_id ≡ request_id
    → x.item_id ≡ request_id

-- No recorded instantActions message that holds this action stands under another action.
abbrev pub DemandedAlone : Codec → Table → Bytes → Type 0
DemandedAlone c t action_id =
    (x : Event) (msg : InstantActions) (y : Action)
    → In x t.rows
    → x.topic ≡ text "instantActions"
    → c.parse_instant_actions x.payload ≡ some msg
    → In y msg.actions
    → y.action_id ≡ action_id
    → x.item_id ≡ action_id
