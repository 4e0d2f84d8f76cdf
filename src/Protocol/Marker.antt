-- ===== src/Protocol/Marker.antt =====
-- engine/protocol/marker.go: the ownership marker on an index, and which marker a node writes. The
-- JSON text of a marker is left out: a marker stands for its text.
use partitionctl.Base.{
  ℕ, Bool, not, ◌||◌, [], Str, codes, is_empty, str_eq, none, some, Option, if◌then◌else◌, ◌▷◌,
  refuse,
}
use partitionctl.Protocol.Errors.{GoError, err_invalid_plan}
use partitionctl.Protocol.ObjectName.{ObjectName}

abbrev pub marker_role_parent : Str
marker_role_parent = codes "parent"

abbrev pub marker_role_leaf : Str
marker_role_leaf = codes "leaf"

pub record Marker : Type 0 where
  pub run : Str
  pub plan : Str
  pub op : Str
  pub role : Str
  pub parent : Str
  pub at : Str
  pub reindexed : Str
  pub reindex_run : Str

abbrev pub no_marker : Marker
no_marker = record {
  run = [];
  plan = [];
  op = [];
  role = [];
  parent = [];
  at = [];
  reindexed = [];
  reindex_run = [];
}

-- A Go `int`: the four values that are declared, and every other.
pub data MarkerStatus : Type 0 where
  marker_absent marker_ours marker_foreign marker_unreadable : MarkerStatus
  marker_unknown : ℕ → MarkerStatus

unfoldable pub validate : Marker → Option GoError
validate m =
    refuse (is_empty m.run) err_invalid_plan
    ▷ refuse (is_empty m.op) err_invalid_plan
    ▷ refuse (not (str_eq m.role marker_role_parent || str_eq m.role marker_role_leaf))
        err_invalid_plan
    ▷ refuse (is_empty m.at) err_invalid_plan

pub record MarkerTarget : Type 0 where
  pub index : ObjectName
  pub role : Str
  pub parent : Str
  pub rewrite : Bool

-- `if s != "" { … = s }`.
abbrev pub or_keep : Str → Str → Str
or_keep s old = if is_empty s then old else s

-- The provenance of a marker that is already there is kept.
keep_prior : Marker → MarkerStatus → Marker → Marker
keep_prior prior marker_ours m = record m {
  op = prior.op;
  run = prior.run;
  at = prior.at;
  plan = prior.plan;
  parent = or_keep prior.parent m.parent;
  role = or_keep prior.role m.role;
}
keep_prior prior _ m = m

-- The marker that `RenderMarkerStatement` builds for a target: `none` where nothing is written, as
-- over a comment that is not PartitionCTL's.
unfoldable pub next_marker : MarkerTarget → Marker → Marker → MarkerStatus → Option Marker
unfolding keep_prior
next_marker t base prior marker_foreign = none
next_marker t base prior marker_unreadable = none
next_marker t base prior status =
    let m = record base { role = t.role; parent = or_keep t.parent base.parent } in
    some (
      if t.rewrite
      then record (keep_prior prior status m) { reindexed = base.at; reindex_run = base.run }
      else m)
