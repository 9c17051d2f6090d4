-- ===== src/Schema/FactSheet/ArrayLengths/RoundTrip.antt =====
-- The conversion of MaximumArrayLengths there and back.
use syrius_orbit_daemon.Common.{
  ℕ, ◌≡◌, refl, ap, ◌∙◌, Option, none, some, List, [], ◌∷◌, Bytes, text, ◌==◌, ==_iff, fold_left,
  if◌then◌else◌, if_ind, arith,
}
use syrius_orbit_daemon.Json.{
  Json, Members, null, boolean, number, string, array, object, end, member,
}
use syrius_orbit_daemon.Schema.FactSheet.{MaximumArrayLengths}
use syrius_orbit_daemon.Schema.FactSheet.ArrayLengths.{
  assign, set_key, put_opt, entries, to_json, lookup, value_at, extract, member_of, extract_all,
  from_json,
}

-- What the calls of PUT_OPT leave under a key.
abbrev put_value : Option ℕ → Option Json → Option Json
put_value none old = old
put_value (some n) old = some (number n)

abbrev left : Bytes → List (Bytes × Option ℕ) → Option Json → Option Json
left key [] old = old
left key ((k, o) ∷ es) old = left key es (if k == key then put_value o old else old)

-- A value that PUT_OPT works on.
abbrev IsTarget : Json → Type 0
IsTarget null = Unit
IsTarget (object members) = Unit
IsTarget j = ⊥

lookup-assign :
    (key k : Bytes) (v : Json) (ms : Members)
    → lookup key (assign k v ms) ≡ (if k == key then some v else lookup key ms)
unfolding lookup assign
lookup-assign key k v end = refl
lookup-assign key k v (member j w rest) =
    ground (arith, lookup-assign key k v rest, ==_iff j k, ==_iff k key, ==_iff j key)

put_opt-IsTarget : (j : Json) (e : Bytes × Option ℕ) → IsTarget j → IsTarget (put_opt j e)
unfolding put_opt set_key
put_opt-IsTarget j (k, none) h = h
put_opt-IsTarget null (k, some n) h = tt
put_opt-IsTarget (object ms) (k, some n) h = tt
put_opt-IsTarget (boolean _) (k, some n) h = absurd h
put_opt-IsTarget (number _) (k, some n) h = absurd h
put_opt-IsTarget (string _) (k, some n) h = absurd h
put_opt-IsTarget (array _) (k, some n) h = absurd h

value_at-put_opt :
    (key k : Bytes) (o : Option ℕ) (j : Json)
    → IsTarget j
    → value_at key (put_opt j (k, o))
      ≡ (if k == key then put_value o (value_at key j) else value_at key j)
unfolding value_at put_opt set_key lookup
value_at-put_opt key k none j h =
    if_ind (λ y. value_at key j ≡ y) (k == key) (λ _. refl) (λ _. refl)
value_at-put_opt key k (some n) null h = refl
value_at-put_opt key k (some n) (object ms) h = lookup-assign key k (number n) ms
value_at-put_opt key k (some n) (boolean _) h = absurd h
value_at-put_opt key k (some n) (number _) h = absurd h
value_at-put_opt key k (some n) (string _) h = absurd h
value_at-put_opt key k (some n) (array _) h = absurd h

value_at-fold :
    (key : Bytes) (es : List (Bytes × Option ℕ)) (j : Json)
    → IsTarget j
    → value_at key (fold_left put_opt j es) ≡ left key es (value_at key j)
unfolding fold_left
value_at-fold key [] j h = refl
value_at-fold key ((k, o) ∷ es) j h =
    value_at-fold key es (put_opt j (k, o)) (put_opt-IsTarget j (k, o) h)
    ∙ ap (left key es) (value_at-put_opt key k o j h)

extract-put_value : (o : Option ℕ) → extract (put_value o none) ≡ some o
unfolding extract
extract-put_value none = refl
extract-put_value (some n) = refl

member_of-to_json :
    (key : Bytes) (d : MaximumArrayLengths) (o : Option ℕ)
    → left key (entries d) none ≡ put_value o none
    → member_of key (to_json d) ≡ some o
unfolding member_of to_json value_at
member_of-to_json key d o h =
    ap extract (value_at-fold key (entries d) null tt ∙ h) ∙ extract-put_value o

extract_all-to_json : (d : MaximumArrayLengths) → extract_all (to_json d) ≡ some d
unfolding extract_all entries ◌==◌
extract_all-to_json d = simp (
  member_of-to_json (text "order.nodes") d d.order_nodes refl,
  member_of-to_json (text "order.edges") d d.order_edges refl,
  member_of-to_json (text "node.actions") d d.node_actions refl,
  member_of-to_json (text "edge.actions") d d.edge_actions refl,
  member_of-to_json (text "actions.actionsParameters") d d.actions_actions_parameters refl,
  member_of-to_json (text "instantActions") d d.instant_actions refl,
  member_of-to_json (text "trajectory.knotVector") d d.trajectory_knot_vector refl,
  member_of-to_json (text "trajectory.controlPoints") d d.trajectory_control_points refl,
  member_of-to_json (text "zoneSet.zones") d d.zone_set_zones refl,
  member_of-to_json (text "state.nodeStates") d d.state_node_states refl,
  member_of-to_json (text "state.edgeStates") d d.state_edge_states refl,
  member_of-to_json (text "state.loads") d d.state_loads refl,
  member_of-to_json (text "state.actionStates") d d.state_action_states refl,
  member_of-to_json (text "state.instantActionStates") d d.state_instant_action_states refl,
  member_of-to_json (text "state.zoneActionStates") d d.state_zone_action_states refl,
  member_of-to_json (text "state.errors") d d.state_errors refl,
  member_of-to_json (text "state.information") d d.state_information refl,
  member_of-to_json (text "error.errorReferences") d d.error_error_references refl,
  member_of-to_json (text "information.infoReferences") d d.information_info_references refl,
)

from_json-extract_all : (j : Json) → from_json j ≡ extract_all j
unfolding from_json extract_all member_of extract value_at
from_json-extract_all null = refl
from_json-extract_all (boolean b) = refl
from_json-extract_all (number n) = refl
from_json-extract_all (string s) = refl
from_json-extract_all (array xs) = refl
from_json-extract_all (object ms) = refl

-- Reading back what to_json wrote gives the same lengths, the absent ones absent, whatever subset of
-- the nineteen is set.
pub from_json-to_json : (d : MaximumArrayLengths) → from_json (to_json d) ≡ some d
from_json-to_json d = from_json-extract_all (to_json d) ∙ extract_all-to_json d
