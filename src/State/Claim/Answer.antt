-- ===== src/State/Claim/Answer.antt =====
-- What ClaimsObjectIn answers, of all the runs on the disk.
use partitionctl.Base.{◌≡◌, true, List, Str, none, some, Option, All, values}
use partitionctl.Protocol.Errors.{Result, ok, err}
use partitionctl.Protocol.ObjectName.{ObjectName}
use partitionctl.State.Run.{Run}
use partitionctl.State.Run.Query.{RunQuery, matches}
use partitionctl.State.Disk.{Env, Disk}
use partitionctl.State.Disk.Hoare.{Runs}
use partitionctl.State.File.Trail.{here}
use partitionctl.State.File.Runs.{all_runs}
use partitionctl.State.Claim.{claiming_query}
use partitionctl.State.Claim.Meaning.{Some, Claims, IsAsked}
use partitionctl.State.Refusals.{Unchanged}
use partitionctl.State.Claim.Loop.{NotLater}

module _ (env : Env) (d : Disk) (database : Str) (o : ObjectName) where
  abbrev on_disk : List Run
  on_disk = all_runs (values d.runs)

  -- The run is unfinished and of the database, and a node of it on the disk claims the object.
  pub record HasClaim (r : Run) : Type 0 where
    pub asked : IsAsked database r
    pub by_node : Some (Claims o) (values (here env r.run_id d).nodes)

  abbrev pub IsFound : Option Run → Type 0
  IsFound none = Unit
  IsFound (some r) = Some (λ s. s ≡ r) on_disk × HasClaim r

  -- The answer is a run on the disk with a claim, and each run on the disk with a claim started no
  -- later; so there is no such run where the answer is none.
  pub record IsAnswer (x : Option Run) : Type 0 where
    pub sound : IsFound x
    pub latest : All (λ r. HasClaim r → NotLater (some r) x) on_disk

  abbrev pub ClaimAnswer : Result (Option Run) × Disk → Type 0
  ClaimAnswer (ok x, v) = Unchanged d v × IsAnswer x
  ClaimAnswer (err e, v) = Unchanged d v

module _ (env : Env) (database : Str) (o : ObjectName) (d : Disk) where
  abbrev query : RunQuery
  query = claiming_query database

  -- The runs that the loop is given.
  abbrev IsGiven : Run → Type 0
  IsGiven r = Some (λ s. s ≡ r) (on_disk env d database o) × (matches query r ≡ true)
