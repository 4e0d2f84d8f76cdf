-- ===== src/State/Refusals/Locks.antt =====
-- A lock file that is not stale keeps everyone else out.
use partitionctl.Base.{ℕ, ◌≡◌, refl, sym, false, none, some, Option, find, ap, ◌∙◌}
use mathlib.Core.Path.{subst}
use partitionctl.State.Lock.{LockKey, LockFile, is_stale}
use partitionctl.State.Disk.{
  Outcome, succeeds, fails_before, fails_after, Env, Disk, optional, tick,
}
use partitionctl.State.Disk.Hoare.{
  After, Runs, IsTimeless, Runs-weaken, Runs-if, Runs-next, Runs-given, check-Then, fail-Runs,
}
use partitionctl.State.Disk.Accesses.{draw_token-Keeps, read_or_none-Runs, clock-Runs}
use partitionctl.State.File.Locks.{
  try_lock, contend, create_exclusive, exclusive, lock_at, lock_path, read_lock,
}
use partitionctl.State.Evolution.Accesses.{same_disk}
use partitionctl.State.Refusals.{Unchanged, unchanged-IsTimeless, IsRefused, Runs-IsRefused}

some-injective : {A : Type 0} (a b : A) → some a ≡ some b → a ≡ b
some-injective a b e = cc

module _ (env : Env) (d : Disk) (k : LockKey) (l : LockFile)
    (there : lock_at env k d ≡ some l) where
  steady : IsTimeless (Unchanged d)
  steady = unchanged-IsTimeless d

  lock_at-Unchanged : (v : Disk) → Unchanged d v → lock_at env k v ≡ some l
  lock_at-Unchanged v h = ap (find (lock_path env k)) h.locks ∙ there

  exclusive-After :
      (o : Outcome) (x : Option LockFile) (f : Disk → Disk) (v : Disk)
      → x ≡ some l
      → Unchanged d v
      → After (λ b w. Unchanged d w × (b ≡ false)) (Unchanged d) (exclusive o x f v)
  exclusive-After succeeds none f v e h = cc
  exclusive-After succeeds (some m) f v e h = (h, refl)
  exclusive-After fails_before none f v e h = h
  exclusive-After fails_before (some m) f v e h = h
  exclusive-After fails_after none f v e h = absurd (cc e)
  exclusive-After fails_after (some m) f v e h = h

  create_exclusive-Runs :
      (n : LockFile)
      → Runs
          (Unchanged d)
          (λ b v. Unchanged d v × (b ≡ false))
          (Unchanged d)
          (create_exclusive env k n)
  unfolding create_exclusive
  create_exclusive-Runs n = record {
    ends = λ v h.
        exclusive-After (env.medium v.step) (lock_at env k v) _ (tick v) (lock_at-Unchanged v h)
          (steady.passes v _ h);
  }

  read-lock :
      Runs
        (Unchanged d)
        (λ x v. Unchanged d v × (x ≡ some l))
        (Unchanged d)
        (optional (read_lock env k))
  unfolding read_lock
  read-lock =
      Runs-weaken (read_or_none-Runs env steady (lock_at env k) (λ v n. refl)) (same_disk _)
        (λ x v p. (p.0, sym p.1 ∙ lock_at-Unchanged v p.0)) (same_disk _)

  contend-Runs :
      (n : LockFile) (t : ℕ) (x : Option LockFile)
      → x ≡ some l
      → is_stale l t ≡ false
      → Runs (Unchanged d) (λ f v. ⊥) (Unchanged d) (contend env k n t x)
  unfolding contend
  contend-Runs n t none e fresh = fail-Runs (same_disk _) _
  contend-Runs n t (some m) e fresh =
      Runs-if (is_stale m t) (λ stale. cc (ap (λ y. is_stale y t) (some-injective m l e)))
        (λ held. fail-Runs (same_disk _) _)

  -- While the lock file of a key is not stale at any time that the clock shows, TryLock on the key
  -- fails and leaves every file as it was.
  pub try_lock-IsRefused :
      ((n : ℕ) → is_stale l (env.clock n) ≡ false) → IsRefused (try_lock env k) d
  unfolding try_lock
  try_lock-IsRefused fresh = Runs-IsRefused _ d (
      check-Then (same_disk _) _ λ valid. Runs-next (same_disk _) (clock-Runs env steady) λ t.
        Runs-given λ at. Runs-next (same_disk _) (draw_token-Keeps env steady) λ token.
          Runs-next (same_disk _) (create_exclusive-Runs _) λ created. Runs-given λ no'.
            Runs-if created (λ made. cc)
              λ there'. Runs-next (same_disk _) read-lock λ x. Runs-given λ e.
                contend-Runs _ t x e (subst (λ s. is_stale l s ≡ false) (sym at.1) (fresh at.0)))
