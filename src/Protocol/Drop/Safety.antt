-- ===== src/Protocol/Drop/Safety.antt =====
-- Which inputs of the decision table end in a DROP.
use partitionctl.Base.{◌≡◌, ◌≢◌, ◌↔◌, false, is_empty, arith}
use partitionctl.Protocol.Marker.{marker_absent, marker_ours}
use partitionctl.Protocol.Leftover.{leftover_none, classify_leftover}
use partitionctl.Protocol.Drop.{
  drop_authorized, drop_adopt_then_drop, ProvenanceDropInput, LeftoverDropInput,
  decide_provenance_drop, decide_leftover_drop,
}

-- The provenance row: a drop is authorized exactly by PartitionCTL's own marker, it is left to
-- adoption exactly where no comment stands and a run claims the object, and all else halts.
pub decide_provenance_drop-action :
    (i : ProvenanceDropInput)
    → (((decide_provenance_drop i).action ≡ drop_authorized) ↔ (i.status ≡ marker_ours))
      × (((decide_provenance_drop i).action ≡ drop_adopt_then_drop)
          ↔ ((i.status ≡ marker_absent) × (is_empty i.claim_run ≡ false)))
unfolding decide_provenance_drop
decide_provenance_drop-action i = ground arith

-- The leftover row: a drop is authorized exactly where the name is a leftover's and its base
-- carries PartitionCTL's marker; it is never left to adoption.
pub decide_leftover_drop-action :
    (i : LeftoverDropInput)
    → (((decide_leftover_drop i).action ≡ drop_authorized)
        ↔ (((classify_leftover i.object.name).0 ≢ leftover_none) × (i.base_status ≡ marker_ours)))
      × ((decide_leftover_drop i).action ≢ drop_adopt_then_drop)
unfolding decide_leftover_drop
decide_leftover_drop-action i = ground arith
