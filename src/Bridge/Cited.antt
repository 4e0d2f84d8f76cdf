-- ===== src/Bridge/Cited.antt =====
-- A destructive action that the decision table authorizes passes the store's checks of its record.
use partitionctl.Base.{ℕ, ◌≡◌, true, false, Str, is_empty, str_eq, none, find, arith}
use partitionctl.Protocol.ObjectName.{ObjectName, validate, string}
use partitionctl.Protocol.Quote.{validate_identifier}
use partitionctl.Protocol.Drop.{
  ProvenanceDropInput, decide_provenance_drop, is_satisfied, evidence_at,
}
use partitionctl.Protocol.Authorization.{auth_provenance, is_valid_mode}
use partitionctl.Executor.Port
use partitionctl.State.Authorization.{
  validate_record, check_mode_fields, check_source, required_evidence,
}
use partitionctl.Bridge.{record_for}

validate-name : (o : ObjectName) → validate o ≡ none → is_empty (string o) ≡ false
unfolding validate string validate_identifier
validate-name o h = ground arith

-- The record of a provenance grant, as the executor writes it.
abbrev pub granted_record : Str → Str → ProvenanceDropInput → Str → Port.AuthorizationRecord
granted_record run node i at = record {
  run = run;
  node = node;
  object = i.object;
  mode = auth_provenance;
  evidence = (decide_provenance_drop i).evidence;
  granted_at = at;
}

-- Where the decision table authorizes a provenance drop of an object with a valid name, for a run
-- and a node that are named, and PartitionCTL's marker names its run, the record that the bridge
-- makes of the grant passes every check of the store.
pub record_for-valid :
    (instant : Str → ℕ) (database run node at : Str) (i : ProvenanceDropInput)
    → is_empty run ≡ false
    → is_empty node ≡ false
    → validate i.object ≡ none
    → is_empty i.marker.run ≡ false
    → is_satisfied (decide_provenance_drop i) ≡ true
    → validate_record (record_for instant database (granted_record run node i at)) ≡ none
unfolding validate_record record_for decide_provenance_drop is_satisfied check_mode_fields
    check_source required_evidence evidence_at find str_eq is_valid_mode
record_for-valid instant database run node at i hr hn ho hm hs =
    ground (arith, validate-name i.object ho)
