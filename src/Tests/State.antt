-- ===== src/Tests/State.antt =====
-- A medium that never fails, a directory with one run, and the theorems of the state store there.
use partitionctl.Base.{
  ◌≡◌, refl, ap, true, false, List, [], ◌∷◌, Str, codes, none, some, find, str_eq_refl, pos, negsuc,
  ◌^◌, ◌-◌, ◌∙◌, ◌↔◌, arith, wrap64,
}
use partitionctl.Protocol.NodeKind.{index_create_concurrently}
use partitionctl.Protocol.NodeState.{done, running, is_complete}
use partitionctl.Protocol.ObjectName.{ObjectName, new_object_name, validate}
use partitionctl.Protocol.Quote.{validate_identifier, has_byte}
use partitionctl.Base.Utf8.{valid_string, decode_rune, decode2, decode3, decode4, valid_from}
use partitionctl.Protocol.Marker.{Marker, no_marker, marker_ours}
use partitionctl.Protocol.Drop.{ProvenanceDropInput, decide_provenance_drop, is_satisfied}
use partitionctl.Protocol.Plan.{op_create_index}
use partitionctl.State.Run.{
  Run, RunStatus, run_running, run_completed, run_cancelled, valid_run_transition,
  is_terminal_status,
}
use partitionctl.State.Run.Machine.{StatusEdge, valid_run_transition_iff_StatusEdge}
use partitionctl.State.Node.{NodeRecord}
use partitionctl.State.Node.Counts.{count_nodes}
use partitionctl.State.Node.Counts.Totals.{AreCounts, count_nodes-AreCounts}
use partitionctl.State.Lease.{Lease, is_expired, has_passed, seconds_of, add_duration}
use partitionctl.State.Lock.{LockKey, LockFile, is_stale}
use partitionctl.State.Authorization.{AuthorizationRecord, validate_record}
use partitionctl.State.Disk.{Env, succeeds, RunDir, Disk, dir_at, segment}
use partitionctl.State.File.Locks.{lock_path, try_lock}
use partitionctl.State.File.Leases.{acquire_lease, heartbeat, release_lease}
use partitionctl.State.Orphan.{adopt_orphan}
use partitionctl.State.Evolution.{Evolves, identity}
use partitionctl.State.Evolution.Calls.{
  Call, sets_status, cancels, perform_all, perform_all-Evolves,
}
use partitionctl.State.Evolution.Opening.{StatWorks}
use partitionctl.State.Evolution.Lifetimes.{perform_all_terminal, perform_all_complete}
use partitionctl.State.Refusals.{IsRefused, IsLive, leases-IsRefused}
use partitionctl.State.Refusals.Locks.{try_lock-IsRefused}
use partitionctl.State.Refusals.Adoption.{adopt_orphan_cancelled-IsRefused}
use partitionctl.Bridge.{record_for}
use partitionctl.Bridge.Cited.{granted_record, record_for-valid}
use partitionctl.Executor.Backoff.{delay, delay-min}

-- Nothing fails, and the clock stands still at one second.
abbrev healthy : Env
healthy = record {
  medium = λ n. succeeds;
  stat_fails = λ n. false;
  clock = λ n. 1000000000;
  random = λ n. codes "token";
  digest = λ s. codes "0011223344556677";
  holder = codes "host/1";
  lock_ttl = pos 60;
}

healthy-StatWorks : StatWorks healthy
healthy-StatWorks n = refl

abbrev r1 : Str
r1 = codes "r1"

abbrev leaf : ObjectName
leaf = new_object_name (codes "public") (codes "orders_1_idx")

abbrev table : ObjectName
table = new_object_name (codes "public") (codes "orders")

abbrev sample_run : RunStatus → Run
sample_run s = record {
  run_id = r1;
  plan_id = codes "p1";
  operation = op_create_index;
  target = record { database = codes "db"; table = table; index = none };
  plan_digest = codes "sha256:00";
  actor = codes "me";
  status = s;
  node_count = 1;
  started_at = 5;
  updated_at = 5;
  finished_at = none;
  cancel_requested = false;
  cancel_requested_at = none;
  cancel_actor = [];
  cancel_note = [];
  last_error = [];
}

abbrev sample_node : NodeRecord
sample_node = record {
  run_id = r1;
  node_id = codes "n1";
  kind = index_create_concurrently;
  state = done;
  object = leaf;
  attempts = 1;
  error_kind = none;
  started_at = some 5;
  updated_at = 6;
}

abbrev sample_lease : Lease
sample_lease = record {
  run_id = r1;
  holder = codes "other/2";
  acquired_at = 5;
  heartbeat_at = 5;
  ttl_seconds = pos 60;
}

abbrev sample_dir : RunStatus → RunDir
sample_dir s = record {
  run = some (sample_run s);
  lease = some sample_lease;
  nodes = (codes "n1", sample_node) ∷ [];
  authorizations = [];
  audit = [];
}

abbrev sample_key : LockKey
sample_key = record { database = codes "db"; table = table }

abbrev sample_lock : LockFile
sample_lock = record {
  key = sample_key;
  holder = codes "other/2";
  token = codes "theirs";
  acquired = 5;
  refreshed = 5;
  ttl_seconds = pos 60;
}

abbrev sample_disk : RunStatus → Disk
sample_disk s = record {
  runs = (segment healthy r1, sample_dir s) ∷ [];
  locks = (lock_path healthy sample_key, sample_lock) ∷ [];
  step = 0;
}

find-first : {V : Type 0} (k : Str) (v : V) (l : List (Str × V)) → find k ((k, v) ∷ l) ≡ some v
unfolding find
find-first k v l = rw (str_eq_refl k) refl

here-sample : (s : RunStatus) → dir_at (segment healthy r1) (sample_disk s) ≡ sample_dir s
unfolding dir_at
here-sample s = rw (find-first (segment healthy r1) (sample_dir s) []) refl

abbrev sample_calls : List Call
sample_calls =
    sets_status (record {
      run_id = r1;
      from = run_running;
      to = run_completed;
      error = [];
      clear_cancel = false;
      at = 7;
    })
    ∷ cancels r1 (codes "me") (codes "stop")
    ∷ []

perform_all-Evolves_example :
    Evolves (sample_disk run_running) (perform_all healthy sample_calls (sample_disk run_running))
perform_all-Evolves_example =
    perform_all-Evolves healthy healthy-StatWorks sample_calls (sample_disk run_running)

perform_all_terminal_example :
    (s : Run) × ((dir_at
        (segment healthy r1)
        (perform_all healthy sample_calls (sample_disk run_completed))).run
      ≡ some s)
    × (s.status ≡ run_completed)
    × (identity s ≡ identity (sample_run run_completed))
unfolding is_terminal_status
perform_all_terminal_example =
    perform_all_terminal healthy healthy-StatWorks sample_calls (sample_disk run_completed)
      (segment healthy r1) (sample_run run_completed) (ap (λ x. x.run) (here-sample run_completed))
      refl

perform_all_complete_example :
    (m : NodeRecord) × (find
        (codes "n1")
        (dir_at
          (segment healthy r1)
          (perform_all healthy sample_calls (sample_disk run_running))).nodes
      ≡ some m)
    × (m.state ≡ done)
    × (m.object ≡ leaf)
unfolding is_complete
perform_all_complete_example =
    perform_all_complete healthy healthy-StatWorks sample_calls (sample_disk run_running)
      (segment healthy r1) (codes "n1") sample_node
      (λ e. cc (ap (λ x. x.run) (here-sample run_running)))
      (ap (λ x. find (codes "n1") x.nodes) (here-sample run_running)
        ∙ find-first (codes "n1") sample_node [])
      refl

valid_run_transition_iff_StatusEdge_example :
    (valid_run_transition run_running run_completed ≡ true) ↔ StatusEdge run_running run_completed
valid_run_transition_iff_StatusEdge_example =
    valid_run_transition_iff_StatusEdge run_running run_completed

count_nodes-AreCounts_example : AreCounts (count_nodes (sample_node ∷ [])) (sample_node ∷ [])
count_nodes-AreCounts_example = count_nodes-AreCounts (sample_node ∷ [])

abbrev me : Str
me = codes "host/1"

sample-IsLive : IsLive healthy sample_lease me
unfolding is_expired has_passed seconds_of add_duration wrap64
sample-IsLive = record { other_holder = λ e. cc; in_time = λ n. refl }

leases-IsRefused_example :
    IsRefused (acquire_lease healthy r1 me (pos 0)) (sample_disk run_running)
    × IsRefused (heartbeat healthy r1 me) (sample_disk run_running)
    × IsRefused (release_lease healthy r1 me) (sample_disk run_running)
leases-IsRefused_example =
    leases-IsRefused healthy (sample_disk run_running) r1 me (pos 0) sample_lease
      (ap (λ x. x.lease) (here-sample run_running)) sample-IsLive

try_lock-IsRefused_example : IsRefused (try_lock healthy sample_key) (sample_disk run_running)
unfolding is_stale has_passed seconds_of add_duration wrap64
try_lock-IsRefused_example =
    try_lock-IsRefused healthy (sample_disk run_running) sample_key sample_lock
      (find-first (lock_path healthy sample_key) sample_lock []) (λ n. refl)

adopt_orphan_cancelled-IsRefused_example :
    IsRefused
      (adopt_orphan healthy none r1 me (pos 0) 9)
      (perform_all healthy sample_calls (sample_disk run_cancelled))
adopt_orphan_cancelled-IsRefused_example =
    adopt_orphan_cancelled-IsRefused healthy sample_calls (sample_disk run_cancelled) none r1 me
      (pos 0) 9 (sample_run run_cancelled) healthy-StatWorks
      (ap (λ x. x.run) (here-sample run_cancelled)) refl

abbrev our_marker : Marker
our_marker = record no_marker { run = r1 }

abbrev our_drop : ProvenanceDropInput
our_drop = record { object = leaf; status = marker_ours; marker = our_marker; claim_run = [] }

abbrev our_record : AuthorizationRecord
our_record =
    record_for (λ s. 5) (codes "db") (granted_record r1 (codes "n1") our_drop (codes "now"))

-- A check of the run is under way.
abbrev claiming_disk : Disk
claiming_disk = record {
  runs =
      (
        segment healthy r1,
        record (sample_dir run_running) {
          nodes = (codes "n1", record sample_node { state = running }) ∷ [];
        },
      )
      ∷ [];
  locks = [];
  step = 0;
}

record_for-valid_example :
    validate_record
      (record_for (λ s. 5) (codes "db") (granted_record r1 (codes "n1") our_drop (codes "now")))
    ≡ none
unfolding validate validate_identifier has_byte valid_string decode_rune decode2 decode3 decode4
    valid_from decide_provenance_drop is_satisfied
record_for-valid_example =
    record_for-valid (λ s. 5) (codes "db") r1 (codes "n1") (codes "now") our_drop refl refl refl
      refl refl

delay-min_example :
    delay (record { max_attempts = 5; base_delay = pos 1000000000; max_delay = pos 60000000000 }) 5
    ≡ pos 8000000000
delay-min_example =
    delay-min
      (record { max_attempts = 5; base_delay = pos 1000000000; max_delay = pos 60000000000 }) 3
      1000000000 60000000000 refl refl (omega arith) (omega arith)

-- The doubled delay wraps around: the delay before the third attempt is negative.
delay_wraps :
    delay (record { max_attempts = 5; base_delay = pos (2 ^ 62); max_delay = pos (2 ^ 63 - 1) }) 3
    ≡ negsuc (2 ^ 63 - 1)
unfolding delay wrap64
delay_wraps = refl
