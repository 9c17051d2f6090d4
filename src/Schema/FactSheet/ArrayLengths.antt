-- ===== src/Schema/FactSheet/ArrayLengths.antt =====
-- The hand-written conversion of MaximumArrayLengths and its macros PUT_OPT and EXTRACT
-- (include/syrius_orbit/vda5050_schemas/FactSheet.hpp). A key of an ordered_json that is new goes to
-- the end. A JSON number stands for an integer; get<int64_t> takes a boolean too, and throws on the rest.
pub mod RoundTrip
use syrius_orbit_daemon.Common.{
  ℕ, ◌≡◌, refl, ap, ◌∙◌, Option, none, some, List, [], ◌∷◌, Bytes, text, ◌==◌, ==_iff, fold_left,
  ◌>>=◌, if◌then◌else◌, if_ind, arith,
}
use syrius_orbit_daemon.Json.{
  Json, Members, null, boolean, number, string, array, object, end, member,
}
use syrius_orbit_daemon.Schema.FactSheet.{MaximumArrayLengths}

-- j[key] = value on the members of an object.
unfoldable pub assign : Bytes → Json → Members → Members
assign key value end = member key value end
assign key value (member k v rest) =
    let rest' = assign key value rest in if k == key then member k value rest else member k v rest'

-- j[key] = value; null turns into an object. Other kinds throw, and do not occur here.
unfoldable pub set_key : Bytes → Json → Json → Json
set_key key value (object members) = object (assign key value members)
set_key key value null = object (member key value end)
set_key key value j = j

-- PUT_OPT.
unfoldable pub put_opt : Json → Bytes × Option ℕ → Json
put_opt j (key, none) = j
put_opt j (key, some n) = set_key key (number n) j

-- The calls of PUT_OPT, in order.
unfoldable pub entries : MaximumArrayLengths → List (Bytes × Option ℕ)
entries d =
    (text "order.nodes", d.order_nodes)
    ∷ (text "order.edges", d.order_edges)
    ∷ (text "node.actions", d.node_actions)
    ∷ (text "edge.actions", d.edge_actions)
    ∷ (text "actions.actionsParameters", d.actions_actions_parameters)
    ∷ (text "instantActions", d.instant_actions)
    ∷ (text "trajectory.knotVector", d.trajectory_knot_vector)
    ∷ (text "trajectory.controlPoints", d.trajectory_control_points)
    ∷ (text "zoneSet.zones", d.zone_set_zones)
    ∷ (text "state.nodeStates", d.state_node_states)
    ∷ (text "state.edgeStates", d.state_edge_states)
    ∷ (text "state.loads", d.state_loads)
    ∷ (text "state.actionStates", d.state_action_states)
    ∷ (text "state.instantActionStates", d.state_instant_action_states)
    ∷ (text "state.zoneActionStates", d.state_zone_action_states)
    ∷ (text "state.errors", d.state_errors)
    ∷ (text "state.information", d.state_information)
    ∷ (text "error.errorReferences", d.error_error_references)
    ∷ (text "information.infoReferences", d.information_info_references)
    ∷ []

-- to_json, on the null value that the library passes.
unfoldable pub to_json : MaximumArrayLengths → Json
to_json d = fold_left put_opt null (entries d)

unfoldable pub lookup : Bytes → Members → Option Json
lookup key end = none
lookup key (member k v rest) = let rest' = lookup key rest in if k == key then some v else rest'

-- contains and at.
unfoldable pub value_at : Bytes → Json → Option Json
value_at key (object members) = lookup key members
value_at key j = none

-- EXTRACT's get<int64_t>, on a member that is there; `none` where it throws.
unfoldable pub extract : Option Json → Option (Option ℕ)
extract none = some none
extract (some null) = some none
extract (some (number n)) = some (some n)
extract (some (boolean b)) = some (some (if b then 1 else 0))
extract (some (string s)) = none
extract (some (array items)) = none
extract (some (object members)) = none

unfoldable pub member_of : Bytes → Json → Option (Option ℕ)
member_of key j = extract (value_at key j)

abbrev pub no_lengths : MaximumArrayLengths
no_lengths = record {
  order_nodes = none;
  order_edges = none;
  node_actions = none;
  edge_actions = none;
  actions_actions_parameters = none;
  instant_actions = none;
  trajectory_knot_vector = none;
  trajectory_control_points = none;
  zone_set_zones = none;
  state_node_states = none;
  state_edge_states = none;
  state_loads = none;
  state_action_states = none;
  state_instant_action_states = none;
  state_zone_action_states = none;
  state_errors = none;
  state_information = none;
  error_error_references = none;
  information_info_references = none;
}

-- The calls of EXTRACT, in order, on a value without lengths.
unfoldable pub extract_all : Json → Option MaximumArrayLengths
extract_all j = do
  order_nodes ← member_of (text "order.nodes") j
  order_edges ← member_of (text "order.edges") j
  node_actions ← member_of (text "node.actions") j
  edge_actions ← member_of (text "edge.actions") j
  actions_actions_parameters ← member_of (text "actions.actionsParameters") j
  instant_actions ← member_of (text "instantActions") j
  trajectory_knot_vector ← member_of (text "trajectory.knotVector") j
  trajectory_control_points ← member_of (text "trajectory.controlPoints") j
  zone_set_zones ← member_of (text "zoneSet.zones") j
  state_node_states ← member_of (text "state.nodeStates") j
  state_edge_states ← member_of (text "state.edgeStates") j
  state_loads ← member_of (text "state.loads") j
  state_action_states ← member_of (text "state.actionStates") j
  state_instant_action_states ← member_of (text "state.instantActionStates") j
  state_zone_action_states ← member_of (text "state.zoneActionStates") j
  state_errors ← member_of (text "state.errors") j
  state_information ← member_of (text "state.information") j
  error_error_references ← member_of (text "error.errorReferences") j
  information_info_references ← member_of (text "information.infoReferences") j
  some (record {
    order_nodes = order_nodes;
    order_edges = order_edges;
    node_actions = node_actions;
    edge_actions = edge_actions;
    actions_actions_parameters = actions_actions_parameters;
    instant_actions = instant_actions;
    trajectory_knot_vector = trajectory_knot_vector;
    trajectory_control_points = trajectory_control_points;
    zone_set_zones = zone_set_zones;
    state_node_states = state_node_states;
    state_edge_states = state_edge_states;
    state_loads = state_loads;
    state_action_states = state_action_states;
    state_instant_action_states = state_instant_action_states;
    state_zone_action_states = state_zone_action_states;
    state_errors = state_errors;
    state_information = state_information;
    error_error_references = error_error_references;
    information_info_references = information_info_references;
  })

-- from_json.
unfoldable pub from_json : Json → Option MaximumArrayLengths
from_json null = some no_lengths
from_json j = extract_all j
