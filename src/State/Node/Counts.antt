-- ===== src/State/Node/Counts.antt =====
-- `CountNodes` of engine/state/node.go.
pub mod Totals
use partitionctl.Base.{
  ℕ, suc, ◌+◌, ◌≡◌, Bool, true, false, ◌||◌, List, [], ◌∷◌, ◌++◌, if◌then◌else◌, length, arith, ◌≤◌,
}
use partitionctl.Protocol.NodeState.{NodeState, running, failed, verifying, state_eq, is_complete}
use partitionctl.State.Node.{NodeRecord}

-- `by_state` is the map; an absent key reads 0.
pub record NodeCounts : Type 0 where
  pub total : ℕ
  pub by_state : NodeState → ℕ
  pub complete : ℕ
  pub remaining : ℕ
  pub failed_nodes : ℕ
  pub in_flight : ℕ

-- The body of the loop.
unfoldable pub count_record : NodeCounts → NodeState → NodeCounts
count_record c s = record c {
  by_state = λ t. if state_eq s t then c.by_state t + 1 else c.by_state t;
  complete = if is_complete s then c.complete + 1 else c.complete;
  failed_nodes =
      if is_complete s
      then c.failed_nodes
      else if state_eq s failed
      then c.failed_nodes + 1
      else c.failed_nodes;
  remaining =
      if is_complete s
      then c.remaining
      else if state_eq s failed
      then c.remaining
      else c.remaining + 1;
  in_flight = if state_eq s running || state_eq s verifying then c.in_flight + 1 else c.in_flight;
}

unfoldable pub count_records : NodeCounts → List NodeRecord → NodeCounts
unfolding count_record
count_records c [] = c
count_records c (r ∷ recs) = count_records (count_record c r.state) recs

unfoldable pub count_nodes : List NodeRecord → NodeCounts
unfolding count_records
count_nodes recs =
    count_records
      (record {
        total = length recs;
        by_state = λ s. 0;
        complete = 0;
        remaining = 0;
        failed_nodes = 0;
        in_flight = 0;
      })
      recs

-- The number of records in a state.
abbrev pub count_in : NodeState → List NodeRecord → ℕ
count_in s [] = 0
count_in s (r ∷ recs) = (if state_eq r.state s then 1 else 0) + count_in s recs
