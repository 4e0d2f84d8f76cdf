-- ===== src/Tests/Protocol.antt =====
-- Concrete inputs for the theorems of the plan protocol.
use partitionctl.Base.{
  ◌≡◌, ◌≢◌, ◌↔◌, ◌⊎◌, refl, true, false, List, [], ◌∷◌, Str, codes, length, none, ◌≤◌, map,
  is_empty, Distinct, str_eq,
}
use partitionctl.Base.Utf8.{valid_string, decode_rune, decode2, rune_len, rune_at, encode_rune}
use partitionctl.Protocol.Errors.{ok, err, err_name_collision}
use partitionctl.Protocol.NodeState.{
  pending, running, ready, done, valid_transition, orphan_recovery, normal, next_states,
  is_terminal,
}
use partitionctl.Protocol.NodeState.Diagram.{
  Edge, valid_transition_iff_Edge, contains, contains-next_states, History, History_of_terminal,
  History-pending,
}
use partitionctl.Protocol.Quote.{max_identifier_bytes, validate_identifier, has_byte}
use partitionctl.Protocol.ObjectName.{
  ObjectName, new_object_name, parse_object_name, string, validate, count_byte,
  quote_maybe_qualified, quoted, validate_maybe_qualified, before_byte, after_byte,
}
use partitionctl.Protocol.ObjectName.Parse.{parse_object_name-string}
use partitionctl.Protocol.ObjectName.Quoting.{quote_maybe_qualified-quoted}
use partitionctl.Protocol.Naming.{
  truncate_utf8, child_index_tag, child_index_name, child_index_names, truncate_from,
  length_prefixed, base32_bits, bits,
}
use partitionctl.Protocol.Naming.Longest.{IsLongestPrefix, truncate_utf8-IsLongestPrefix}
use partitionctl.Protocol.Naming.Collision.{
  length-child_index_name, child_index_name-collision, child_index_names-outcome, IsNatural,
  tag_front,
}
use partitionctl.Protocol.Leftover.{
  leftover_new, leftover_none, leftover_not_a_name, resolve_leftover_base, split_leftover,
  derives_leftover, classify_leftover, leftover_resolved, has_suffix, trim_digits, is_candidate,
  by_count, scan,
}
use partitionctl.Protocol.Leftover.Split.{new_suffix, IsLeftover}
use partitionctl.Protocol.Leftover.Derive.{IsDerived, derives_leftover_iff, split_leftover-short}
use partitionctl.Protocol.Leftover.Resolve.{resolve_leftover_base-Bases, Bases, verdict}
use partitionctl.Protocol.Marker.{no_marker, marker_ours, marker_absent}
use partitionctl.Protocol.Drop.{
  drop_authorized, drop_adopt_then_drop, ProvenanceDropInput, LeftoverDropInput,
  decide_provenance_drop, decide_leftover_drop,
}
use partitionctl.Protocol.Drop.Safety.{decide_provenance_drop-action, decide_leftover_drop-action}

abbrev orders_idx : ObjectName
orders_idx = new_object_name (codes "public") (codes "orders_idx")

abbrev orders_ccnew : ObjectName
orders_ccnew = new_object_name (codes "public") (codes "orders_idx_ccnew1")

abbrev claimed : ProvenanceDropInput
claimed = record {
  object = orders_idx;
  status = marker_absent;
  marker = no_marker;
  claim_run = codes "run-1";
}

decide_provenance_drop-action_example :
    (((decide_provenance_drop claimed).action ≡ drop_authorized) ↔ (marker_absent ≡ marker_ours))
    × (((decide_provenance_drop claimed).action ≡ drop_adopt_then_drop)
        ↔ ((marker_absent ≡ marker_absent) × (is_empty (codes "run-1") ≡ false)))
decide_provenance_drop-action_example = decide_provenance_drop-action claimed

abbrev leftover_drop : LeftoverDropInput
leftover_drop = record {
  object = orders_ccnew;
  base_exists = true;
  base_status = marker_ours;
  base_marker = no_marker;
}

decide_leftover_drop-action_example :
    (((decide_leftover_drop leftover_drop).action ≡ drop_authorized) ↔ (
      ((classify_leftover (codes "orders_idx_ccnew1")).0 ≢ leftover_none)
      × (marker_ours ≡ marker_ours)))
    × ((decide_leftover_drop leftover_drop).action ≢ drop_adopt_then_drop)
decide_leftover_drop-action_example = decide_leftover_drop-action leftover_drop

valid_transition_iff_Edge_example :
    (valid_transition running pending orphan_recovery ≡ true) ↔ Edge running pending orphan_recovery
valid_transition_iff_Edge_example = valid_transition_iff_Edge running pending orphan_recovery

contains-next_states_example :
    contains (next_states pending normal) ready ≡ valid_transition pending ready normal
contains-next_states_example = contains-next_states pending ready normal

abbrev still_done : History done done
still_done = History.here

abbrev still_pending : History pending pending
still_pending = History.here

History_of_terminal_example : done ≡ done
unfolding is_terminal
History_of_terminal_example = History_of_terminal refl still_done

History-pending_example : pending ≡ pending
History-pending_example = History-pending still_pending refl

parse_object_name-string_example : parse_object_name (string orders_idx) ≡ (orders_idx, none)
unfolding validate validate_identifier valid_string decode_rune has_byte count_byte
parse_object_name-string_example = parse_object_name-string orders_idx refl refl refl

-- A stand-in for SHA-256: 32 bytes of the length of its input.
abbrev digest_32 : Str → Str
digest_32 s =
    let n = length s in
    n ∷ n ∷ n ∷ n ∷ n ∷ n ∷ n ∷ n ∷ n ∷ n ∷ n ∷ n ∷ n ∷ n ∷ n ∷ n ∷ n ∷ n ∷ n ∷ n ∷ n ∷ n ∷ n ∷ n
    ∷ n ∷ n ∷ n ∷ n ∷ n ∷ n ∷ n ∷ n ∷ []

length-child_index_name_example :
    length (child_index_name digest_32 (codes "orders_idx") (codes "orders_2024"))
    ≤ max_identifier_bytes
length-child_index_name_example =
    length-child_index_name digest_32 (λ s. refl) (codes "orders_idx") (codes "orders_2024")

abbrev long_parent : Str
long_parent = codes "orders_by_customer_and_region_and_day_with_a_very_long_index_name"

child_index_name-collision_example :
    (IsNatural long_parent (codes "p1")
      × IsNatural long_parent (codes "p2")
      × (codes "p1" ≡ codes "p2"))
    ⊎ ((¬ IsNatural long_parent (codes "p1"))
        × (¬ IsNatural long_parent (codes "p2"))
        × (child_index_tag digest_32 long_parent (codes "p1")
            ≡ child_index_tag digest_32 long_parent (codes "p2"))
        × (tag_front digest_32 (λ s. refl) long_parent (codes "p1")
            ≡ tag_front digest_32 (λ s. refl) long_parent (codes "p2")))
unfolding child_index_name child_index_tag length_prefixed truncate_utf8 truncate_from base32_bits
    bits rune_len rune_at decode_rune
child_index_name-collision_example =
    child_index_name-collision digest_32 (λ s. refl) long_parent (codes "p1") (codes "p2") refl

abbrev two_partitions : List Str
two_partitions = codes "p1" ∷ codes "p2" ∷ []

child_index_names-outcome_example :
    (Distinct (map (child_index_name digest_32 (codes "i")) two_partitions)
      × (child_index_names digest_32 (codes "i") two_partitions
          ≡ ok (map (child_index_name digest_32 (codes "i")) two_partitions)))
    ⊎ ((¬ Distinct (map (child_index_name digest_32 (codes "i")) two_partitions))
        × (child_index_names digest_32 (codes "i") two_partitions ≡ err err_name_collision))
child_index_names-outcome_example = child_index_names-outcome digest_32 (codes "i") two_partitions

-- The second character has two bytes and does not fit.
abbrev a_acute : Str
a_acute = 97 ∷ 0xc3 ∷ 0xa9 ∷ []

truncate_utf8-IsLongestPrefix_example : IsLongestPrefix a_acute 2 (truncate_utf8 a_acute 2)
unfolding valid_string decode_rune decode2
truncate_utf8-IsLongestPrefix_example = truncate_utf8-IsLongestPrefix a_acute 2 refl

derives_leftover_iff_example :
    (derives_leftover (codes "orders_idx") (codes "orders_idx_ccnew1") ≡ true)
    ↔ IsDerived (codes "orders_idx") (codes "orders_idx_ccnew1")
unfolding valid_string decode_rune
derives_leftover_iff_example =
    derives_leftover_iff (codes "orders_idx") (codes "orders_idx_ccnew1") refl

split_leftover-short_example :
    (split_leftover (codes "orders_idx_ccnew1")
      ≡ record { kind = leftover_new; stem = codes "orders_idx"; suffix = codes "_ccnew1" })
    × (derives_leftover (codes "orders_idx") (codes "orders_idx_ccnew1") ≡ true)
unfolding valid_string decode_rune
split_leftover-short_example =
    split_leftover-short (codes "orders_idx") (new_suffix (codes "1") (refl, tt)) refl
      (omega native.Mathlib.Omega.arith)

resolve_leftover_base-Bases_example :
    ((¬ IsLeftover orders_ccnew.name)
      × (resolve_leftover_base orders_ccnew (orders_idx ∷ [])
          ≡ (new_object_name [] [], leftover_not_a_name)))
    ⊎ (IsLeftover orders_ccnew.name
        × (bs : List ObjectName) × Bases orders_ccnew (orders_idx ∷ []) bs
        × (resolve_leftover_base orders_ccnew (orders_idx ∷ []) ≡ verdict bs))
unfolding valid_string decode_rune
resolve_leftover_base-Bases_example =
    resolve_leftover_base-Bases orders_ccnew (orders_idx ∷ []) (refl, tt)

resolve_orders_ccnew :
    resolve_leftover_base orders_ccnew (orders_idx ∷ []) ≡ (orders_idx, leftover_resolved)
unfolding resolve_leftover_base split_leftover has_suffix trim_digits str_eq by_count scan
    is_candidate derives_leftover truncate_utf8 truncate_from rune_len rune_at decode_rune
    encode_rune
resolve_orders_ccnew = refl

quote_maybe_qualified-quoted_example :
    quote_maybe_qualified (codes "extensions.gin_trgm_ops")
    ≡ quoted (new_object_name (codes "extensions") (codes "gin_trgm_ops"))
unfolding validate_maybe_qualified parse_object_name validate validate_identifier count_byte
    before_byte valid_string decode_rune has_byte after_byte
quote_maybe_qualified-quoted_example =
    quote_maybe_qualified-quoted (codes "extensions.gin_trgm_ops") refl
