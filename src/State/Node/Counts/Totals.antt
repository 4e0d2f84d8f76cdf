-- ===== src/State/Node/Counts/Totals.antt =====
-- What `CountNodes` counts, against counts that are made apart from it.
use partitionctl.Base.{◌+◌, ◌≡◌, refl, ◌∙◌, List, [], ◌∷◌, if◌then◌else◌, length, arith}
use partitionctl.Protocol.NodeState.{
  NodeState, running, failed, verifying, done, skipped, state_eq, is_complete,
}
use partitionctl.State.Node.{NodeRecord}
use partitionctl.State.Node.Counts.{NodeCounts, count_record, count_records, count_nodes, count_in}

-- The counts after the loop, from those before it.
record Adds (c d : NodeCounts) (l : List NodeRecord) : Type 0 where
  total : d.total ≡ c.total
  by_state : (s : NodeState) → d.by_state s ≡ c.by_state s + count_in s l
  complete : d.complete ≡ c.complete + (count_in done l + count_in skipped l)
  failed_nodes : d.failed_nodes ≡ c.failed_nodes + count_in failed l
  sum :
      d.complete + d.remaining + d.failed_nodes
      ≡ c.complete + c.remaining + c.failed_nodes + length l
  in_flight : d.in_flight ≡ c.in_flight + (count_in running l + count_in verifying l)

count_record-complete :
    (c : NodeCounts) (s : NodeState)
    → (count_record c s).complete
      ≡ c.complete + ((if state_eq s done then 1 else 0) + (if state_eq s skipped then 1 else 0))
unfolding count_record is_complete state_eq
count_record-complete c s = ground arith

count_record-failed :
    (c : NodeCounts) (s : NodeState)
    → (count_record c s).failed_nodes ≡ c.failed_nodes + (if state_eq s failed then 1 else 0)
unfolding count_record is_complete state_eq
count_record-failed c s = ground arith

count_record-sum :
    (c : NodeCounts) (s : NodeState)
    → (count_record c s).complete + (count_record c s).remaining + (count_record c s).failed_nodes
      ≡ c.complete + c.remaining + c.failed_nodes + 1
unfolding count_record
count_record-sum c s = ground arith

count_record-in_flight :
    (c : NodeCounts) (s : NodeState)
    → (count_record c s).in_flight
      ≡ c.in_flight
        + ((if state_eq s running then 1 else 0) + (if state_eq s verifying then 1 else 0))
unfolding count_record state_eq
count_record-in_flight c s = ground arith

count_record-by_state :
    (c : NodeCounts) (s t : NodeState)
    → (count_record c s).by_state t ≡ c.by_state t + (if state_eq s t then 1 else 0)
unfolding count_record
count_record-by_state c s t = ground arith

count_record-total : (c : NodeCounts) (s : NodeState) → (count_record c s).total ≡ c.total
unfolding count_record
count_record-total c s = refl

count_records-Adds : (c : NodeCounts) (l : List NodeRecord) → Adds c (count_records c l) l
unfolding count_records
count_records-Adds c [] = record {
  total = refl;
  by_state = λ s. omega arith;
  complete = omega arith;
  failed_nodes = omega arith;
  sum = omega arith;
  in_flight = omega arith;
}
count_records-Adds c (r ∷ l) =
    let rest = count_records-Adds (count_record c r.state) l in
    record {
      total = rest.total ∙ count_record-total c r.state;
      by_state = λ s. omega (arith, rest.by_state s, count_record-by_state c r.state s);
      complete = omega (arith, rest.complete, count_record-complete c r.state);
      failed_nodes = omega (arith, rest.failed_nodes, count_record-failed c r.state);
      sum = omega (arith, rest.sum, count_record-sum c r.state);
      in_flight = omega (arith, rest.in_flight, count_record-in_flight c r.state);
    }

-- What the counts of a list of records are.
pub record AreCounts (c : NodeCounts) (l : List NodeRecord) : Type 0 where
  pub total : c.total ≡ length l
  pub sum : c.complete + c.remaining + c.failed_nodes ≡ length l
  pub by_state : (s : NodeState) → c.by_state s ≡ count_in s l
  pub complete : c.complete ≡ count_in done l + count_in skipped l
  pub failed_nodes : c.failed_nodes ≡ count_in failed l
  pub in_flight : c.in_flight ≡ count_in running l + count_in verifying l

-- `CountNodes` counts each record once: `Total` is their number and the sum of `Complete`,
-- `Remaining` and `Failed`; `ByState` counts each state, `Complete` DONE and SKIPPED, `Failed`
-- FAILED, and `InFlight` RUNNING and VERIFYING.
pub count_nodes-AreCounts : (l : List NodeRecord) → AreCounts (count_nodes l) l
unfolding count_nodes
count_nodes-AreCounts l =
    let rest = count_records-Adds _ l in
    record {
      total = rest.total;
      sum = omega (arith, rest.sum);
      by_state = λ s. omega (arith, rest.by_state s);
      complete = omega (arith, rest.complete);
      failed_nodes = omega (arith, rest.failed_nodes);
      in_flight = omega (arith, rest.in_flight);
    }
