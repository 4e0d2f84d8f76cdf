-- ===== src/State/Claim/Loop.antt =====
-- The loop of ClaimsObjectIn over the runs, with the best claim so far.
use partitionctl.Base.{
  ◌≤◌, ◌≡◌, refl, sym, ◌∙◌, ap, Bool, true, false, List, [], ◌∷◌, Str, none, some, Option,
  if◌then◌else◌, arith, All, sort, values, ltb, Bool-cases, inl, inr,
}
use partitionctl.Protocol.ObjectName.{ObjectName}
use partitionctl.State.Run.{Run}
use partitionctl.State.Node.{NodeRecord}
use partitionctl.State.Disk.{Env, Disk, dir_at}
use partitionctl.State.Disk.Hoare.{Runs, IsTimeless, Runs-weaken, Runs-next, Runs-given, done-Runs}
use partitionctl.State.Disk.Accesses.{list-Runs}
use partitionctl.State.File.Trail.{here}
use partitionctl.State.File.Nodes.{list_nodes, or_no_run, node_before}
use partitionctl.State.Claim.{any_claims, later, claiming_run}
use partitionctl.State.Claim.Sorting.{any_claims-sort}
use partitionctl.State.Evolution.Accesses.{same_disk, get_run-Keeps}
use partitionctl.State.Refusals.{Unchanged, unchanged-IsTimeless, here-Unchanged}

-- The first run did not start after the second, and there is a second.
abbrev pub NotLater : Option Run → Option Run → Type 0
NotLater none x = Unit
NotLater (some b) none = ⊥
NotLater (some b) (some c) = b.started_at ≤ c.started_at

NotLater-trans : (a b c : Option Run) → NotLater a b → NotLater b c → NotLater a c
NotLater-trans none b c p q = tt
NotLater-trans (some a) none c p q = absurd p
NotLater-trans (some a) (some b) none p q = q
NotLater-trans (some a) (some b) (some c) p q = omega (arith, p, q)

module _ (env : Env) (d : Disk) (o : ObjectName) (P : Run → Type 0) where
  -- Some node of the run on the disk claims the object.
  abbrev pub claims : Run → Bool
  claims r = any_claims o (values (here env r.run_id d).nodes)

  -- A run that is answered is one of those that were asked, and claims the object.
  abbrev pub IsClaim : Option Run → Type 0
  IsClaim none = Unit
  IsClaim (some r) = P r × (claims r ≡ true)

  later-NotLater :
      (best : Option Run) (r : Run)
      → NotLater best (later best r) × NotLater (some r) (later best r)
  unfolding later
  later-NotLater none r = (tt, omega arith)
  later-NotLater (some b) r = elim (Bool-cases (ltb b.started_at r.started_at)) [
    | inl e ↦ rw e (ground arith, omega arith)
    | inr e ↦ rw e (omega arith, ground arith)
  ]

  later-IsClaim :
      (best : Option Run) (r : Run) → IsClaim best → IsClaim (some r) → IsClaim (later best r)
  unfolding later
  later-IsClaim none r p h = h
  later-IsClaim (some b) r p h = elim (Bool-cases (ltb b.started_at r.started_at)) [
    | inl e ↦ rw e h
    | inr e ↦ rw e p
  ]

  abbrev next : Bool → Option Run → Run → Option Run
  next c best r = if c then later best r else best

  next-IsClaim :
      (c : Bool) (best : Option Run) (r : Run)
      → IsClaim best
      → (c ≡ true → IsClaim (some r))
      → IsClaim (next c best r)
  next-IsClaim true best r p h = later-IsClaim best r p (h refl)
  next-IsClaim false best r p h = p

  next-NotLater :
      (c : Bool) (best : Option Run) (r : Run)
      → NotLater best (next c best r) × (c ≡ true → NotLater (some r) (next c best r))
  next-NotLater true best r = ((later-NotLater best r).0, (λ e. (later-NotLater best r).1))
  next-NotLater false best r = (NotLater-self best, (λ e. cc))
    where
      NotLater-self : (b : Option Run) → NotLater b b
      NotLater-self none = tt
      NotLater-self (some b) = omega arith

  -- The result of the loop over `l` from `best`.
  pub record Tops (best : Option Run) (l : List Run) (x : Option Run) : Type 0 where
    pub sound : IsClaim x
    pub above_best : NotLater best x
    pub above : All (λ r. claims r ≡ true → NotLater (some r) x) l

  steady : IsTimeless (Unchanged d)
  steady = unchanged-IsTimeless d

  or_no_run-Runs :
      (run : Str) (l : List NodeRecord)
      → Runs
          (Unchanged d)
          (λ x v. Unchanged d v × (x ≡ sort node_before l))
          (Unchanged d)
          (or_no_run env run l)
  unfolding sort
  or_no_run-Runs run [] =
      Runs-next (same_disk _) (get_run-Keeps env steady run) λ r. done-Runs _ (λ v p. (p, refl))
  or_no_run-Runs run (n ∷ l) = done-Runs _ (λ v p. (p, refl))

  pub list_nodes-Runs :
      (r : Run)
      → Runs
          (Unchanged d)
          (λ l v. Unchanged d v × (any_claims o l ≡ claims r))
          (Unchanged d)
          (list_nodes env r.run_id)
  unfolding list_nodes dir_at
  list_nodes-Runs r =
      Runs-next (same_disk _)
        (Runs-weaken (list-Runs env steady (λ v. values (here env r.run_id v).nodes) (λ v n. refl))
          (same_disk _)
          (λ l v p. (p.0, sym p.1 ∙ ap (λ x. values x.nodes) (here-Unchanged env r.run_id d v p.0)))
          (same_disk _))
        λ l. Runs-given λ e.
          Runs-weaken (or_no_run-Runs r.run_id l) (same_disk _)
            (λ x v p.
              (p.0, ap (any_claims o) p.1 ∙ any_claims-sort o node_before l ∙ ap (any_claims o) e))
            (same_disk _)

  pub claiming_run-Runs :
      (best : Option Run) (l : List Run)
      → IsClaim best
      → All P l
      → Runs
          (Unchanged d)
          (λ x v. Unchanged d v × Tops best l x)
          (Unchanged d)
          (claiming_run env o best l)
  unfolding claiming_run
  claiming_run-Runs best [] h m =
      done-Runs _
        (λ v p. (p, record { sound = h; above_best = next-NotLater-refl best; above = tt }))
    where
      next-NotLater-refl : (b : Option Run) → NotLater b b
      next-NotLater-refl none = tt
      next-NotLater-refl (some b) = omega arith
  claiming_run-Runs best (r ∷ l) h m = Runs-next (same_disk _) (list_nodes-Runs r) λ nodes.
      Runs-given λ e.
        let step = next-NotLater (any_claims o nodes) best r in
        Runs-weaken
          (claiming_run-Runs (next (any_claims o nodes) best r) l
            (next-IsClaim (any_claims o nodes) best r h (λ c. (m.0, sym e ∙ c))) m.1)
          (same_disk _)
          (λ x v p. (
            p.0,
            record {
              sound = p.1.sound;
              above_best = NotLater-trans best _ x step.0 p.1.above_best;
              above =
                  ((λ c. NotLater-trans (some r) _ x (step.1 (e ∙ c)) p.1.above_best), p.1.above);
            },
          ))
          (same_disk _)
