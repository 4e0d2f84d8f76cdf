-- ===== src/Protocol/Drop.antt =====
-- engine/protocol/drop.go: the decision table of destructive actions. The text of a reason is left
-- out; the evidence is the map's entries in the order in which the code writes them.
pub mod Safety
use partitionctl.Base.{
  ◌≡◌, Bool, true, false, ◌||◌, List, [], ◌∷◌, Str, codes, is_empty, none, some, Option,
  if◌then◌else◌, str_eq,
}
use partitionctl.Protocol.ObjectName.{ObjectName, new_object_name, string}
use partitionctl.Protocol.Marker.{
  Marker, MarkerStatus, marker_absent, marker_ours, marker_foreign, marker_unreadable,
  marker_unknown,
}
use partitionctl.Protocol.Leftover.{
  LeftoverKind, leftover_none, leftover_new, leftover_old, classify_leftover,
}

pub data DropAction : Type 0 where
  drop_halt drop_authorized drop_adopt_then_drop : DropAction

unfoldable pub is_destructive : DropAction → Bool
is_destructive drop_halt = false
is_destructive _ = true

abbrev pub Evidence : Type 0
Evidence = List (Str × Str)

-- `evidence[k]`, which is empty for a missing key.
unfoldable pub evidence_at : Evidence → Str → Str
evidence_at [] k = []
evidence_at ((j, v) ∷ rest) k = if str_eq j k then v else evidence_at rest k

pub record DropVerdict : Type 0 where
  pub action : DropAction
  pub evidence : Evidence

abbrev pub halt : DropVerdict
halt = record { action = drop_halt; evidence = [] }

unfoldable pub is_satisfied : DropVerdict → Bool
unfolding is_destructive
is_satisfied v = is_destructive v.action

pub record ProvenanceDropInput : Type 0 where
  pub object : ObjectName
  pub status : MarkerStatus
  pub marker : Marker
  pub claim_run : Str

provenance_row : ProvenanceDropInput → MarkerStatus → DropVerdict
provenance_row in' marker_ours = record {
  action = drop_authorized;
  evidence =
      (codes "mode", codes "provenance")
      ∷ (codes "object", string in'.object)
      ∷ (codes "source", codes "marker")
      ∷ (codes "marker_run", in'.marker.run)
      ∷ (codes "marker_plan", in'.marker.plan)
      ∷ (codes "marker_at", in'.marker.at)
      ∷ (codes "marker_op", in'.marker.op)
      ∷ [];
}
provenance_row in' marker_absent = if is_empty in'.claim_run then halt else record {
  action = drop_adopt_then_drop;
  evidence =
      (codes "mode", codes "provenance")
      ∷ (codes "object", string in'.object)
      ∷ (codes "source", codes "claim")
      ∷ (codes "claim_run", in'.claim_run)
      ∷ [];
}
provenance_row in' marker_foreign = halt
provenance_row in' marker_unreadable = halt
provenance_row in' (marker_unknown n) = halt

unfoldable pub decide_provenance_drop : ProvenanceDropInput → DropVerdict
unfolding provenance_row
decide_provenance_drop in' = provenance_row in' in'.status

pub record LeftoverDropInput : Type 0 where
  pub object : ObjectName
  pub base_exists : Bool
  pub base_status : MarkerStatus
  pub base_marker : Marker

-- The strings of the classes.
unfoldable pub class_name : LeftoverKind → Str
class_name leftover_none = []
class_name leftover_new = codes "ccnew"
class_name leftover_old = codes "ccold"

authorized_leftover : LeftoverDropInput → LeftoverKind → Str → DropVerdict
unfolding class_name
authorized_leftover in' kind base = record {
  action = drop_authorized;
  evidence =
      (codes "mode", codes "leftover")
      ∷ (codes "object", string in'.object)
      ∷ (codes "source", codes "base_marker")
      ∷ (codes "leftover_class", class_name kind)
      ∷ (codes "base_index", string (new_object_name in'.object.schema base))
      ∷ (codes "base_marker_run", in'.base_marker.run)
      ∷ (codes "base_marker_plan", in'.base_marker.plan)
      ∷ (codes "base_marker_at", in'.base_marker.at)
      ∷ [];
}

-- Both halts over the base's marker differ in their reasons only.
leftover_row : LeftoverDropInput → LeftoverKind → Str → MarkerStatus → DropVerdict
unfolding authorized_leftover
leftover_row in' leftover_none base status = halt
leftover_row in' kind base marker_ours = authorized_leftover in' kind base
leftover_row in' kind base _ = halt

unfoldable pub decide_leftover_drop : LeftoverDropInput → DropVerdict
unfolding leftover_row
decide_leftover_drop in' =
    let (kind, base) = classify_leftover in'.object.name in
    leftover_row in' kind base in'.base_status
