-- ===== src/State/Disk/Accesses.antt =====
-- What each access to the disk finds and leaves, whatever fails.
use partitionctl.Base.{
  ℕ, ◌≡◌, refl, none, some, Option, if◌then◌else◌, Str, List, find-put, str_eq, arith,
}
use partitionctl.Protocol.Errors.{is_kind, kind_eq}
use partitionctl.State.Lock.{LockFile}
use partitionctl.State.Disk.{
  Outcome, succeeds, fails_before, fails_after, Env, RunDir, Disk, dir_at, absent_or, optional,
  tick, read_result, written, set_dir, segment, read, list, write, write_lock, now, draw,
  draw_token,
}
use partitionctl.State.Disk.Hoare.{After, Runs, Keeps, IsTimeless}

module _ (env : Env) {P : Disk → Type 0} (timeless : IsTimeless P) where
  read-After :
      {A : Type 0} (file : Disk → Option A) (d : Disk) (o : Outcome) (x : Option A)
      → file (tick d) ≡ x
      → P (tick d)
      → After (λ a v. P v × (file v ≡ some a)) P (read_result o x, tick d)
  read-After file d succeeds none e p = p
  read-After file d succeeds (some a) e p = (p, e)
  read-After file d fails_before x e p = p
  read-After file d fails_after x e p = p

  -- A record that is read is the content of the file.
  pub read-Runs :
      {A : Type 0} (file : Disk → Option A)
      → ((d : Disk) (n : ℕ) → file (record d { step = n }) ≡ file d)
      → Runs P (λ a d. P d × (file d ≡ some a)) P (read env file)
  unfolding read
  read-Runs file same = record {
    ends = λ d p. read-After file d (env.medium d.step) (file d) (same d _) (timeless.passes d _ p);
  }

  list-After :
      {A : Type 0} (files : Disk → A) (d : Disk) (o : Outcome) (x : A)
      → files (tick d) ≡ x
      → P (tick d)
      → After (λ a v. P v × (files v ≡ a)) P (read_result o (some x), tick d)
  list-After files d succeeds x e p = (p, e)
  list-After files d fails_before x e p = p
  list-After files d fails_after x e p = p

  pub list-Runs :
      {A : Type 0} (files : Disk → A)
      → ((d : Disk) (n : ℕ) → files (record d { step = n }) ≡ files d)
      → Runs P (λ a d. P d × (files d ≡ a)) P (list env files)
  unfolding list
  list-Runs files same = record {
    ends =
        λ d p. list-After files d (env.medium d.step) (files d) (same d _) (timeless.passes d _ p);
  }

  read_or_none-After :
      {A : Type 0} (file : Disk → Option A) (d : Disk) (o : Outcome) (x : Option A)
      → file (tick d) ≡ x
      → P (tick d)
      → After (λ y v. P v × (file v ≡ y)) P (absent_or (read_result o x, tick d))
  unfolding is_kind kind_eq
  read_or_none-After file d succeeds none e p = (p, e)
  read_or_none-After file d succeeds (some a) e p = (p, e)
  read_or_none-After file d fails_before x e p = p
  read_or_none-After file d fails_after x e p = p

  -- An optional read tells exactly what the file holds.
  pub read_or_none-Runs :
      {A : Type 0} (file : Disk → Option A)
      → ((d : Disk) (n : ℕ) → file (record d { step = n }) ≡ file d)
      → Runs P (λ x d. P d × (file d ≡ x)) P (optional (read env file))
  unfolding read optional
  read_or_none-Runs file same = record {
    ends = λ d p.
        read_or_none-After file d (env.medium d.step) (file d) (same d _) (timeless.passes d _ p);
  }

  -- The time that `s.now` reads for a request without one.
  pub clock-Runs : Runs P (λ t d. P d × ((n : ℕ) × (t ≡ env.clock n))) P (now env 0)
  unfolding now
  clock-Runs = record { ends = λ d p. (timeless.passes d _ p, (d.step, refl)) }

  pub now-Keeps : (at : ℕ) → Keeps P (now env at)
  unfolding now
  now-Keeps at = record { ends = λ d p. timeless.passes d _ p }

  pub draw-Keeps : Keeps P (draw env)
  unfolding draw
  draw-Keeps = record { ends = λ d p. timeless.passes d _ p }

  token-After :
      (t : Str) (d : Disk) (o : Outcome) → P d → After (λ x. P) P (read_result o (some t), d)
  token-After t d succeeds p = p
  token-After t d fails_before p = p
  token-After t d fails_after p = p

  pub draw_token-Keeps : Keeps P (draw_token env)
  unfolding draw_token
  draw_token-Keeps = record {
    ends =
        λ d p. token-After (env.random d.step) (tick d) (env.medium d.step) (timeless.passes d _ p);
  }

  written-After :
      (E : Disk → Type 0) (f : Disk → Disk) (d : Disk) (o : Outcome)
      → P d
      → (P d → E d)
      → (P d → E (f d))
      → After (λ u. E) E (written o f d)
  written-After E f d succeeds p drop h = h p
  written-After E f d fails_before p drop h = drop p
  written-After E f d fails_after p drop h = h p

  -- A write after which `E` holds, from where it held before.
  pub write-Runs :
      {E : Disk → Type 0} (id : Str) (f : RunDir → RunDir)
      → ((d : Disk) → P d → E d)
      → ((d : Disk) → P d → E (set_dir (segment env id) (f (dir_at (segment env id) d)) d))
      → Runs P (λ u. E) E (write env id f)
  unfolding write
  write-Runs {E} id f drop h = record {
    ends = λ d p.
        written-After E _ (tick d) (env.medium d.step) (timeless.passes d _ p) (drop (tick d))
          (h (tick d));
  }

  does-After :
      (Q E : Disk → Type 0) (f : Disk → Disk) (d : Disk) (o : Outcome)
      → (E d)
      → E (f d)
      → Q (f d)
      → After (λ u. Q) E (written o f d)
  does-After Q E f d succeeds a b q = q
  does-After Q E f d fails_before a b q = a
  does-After Q E f d fails_after a b q = b

  -- What a write that succeeds has done, and what one that fails leaves.
  pub write-Does :
      {Q E : Disk → Type 0} (id : Str) (f : RunDir → RunDir)
      → ((d : Disk) → P d → E d)
      → ((d : Disk) → P d → E (set_dir (segment env id) (f (dir_at (segment env id) d)) d))
      → ((d : Disk) → P d → Q (set_dir (segment env id) (f (dir_at (segment env id) d)) d))
      → Runs P (λ u. Q) E (write env id f)
  unfolding write
  write-Does {Q} {E} id f drop after does = record {
    ends = λ d p.
        let q = timeless.passes d _ p in
        does-After Q E _ (tick d) (env.medium d.step) (drop (tick d) q) (after (tick d) q)
          (does (tick d) q);
  }

  pub write_lock-Keeps :
      (f : List (Str × LockFile) → List (Str × LockFile))
      → ((d : Disk) → P d → P (record d { locks = f d.locks }))
      → Keeps P (write_lock env f)
  unfolding write_lock
  write_lock-Keeps f h = record {
    ends = λ d p.
        written-After P _ (tick d) (env.medium d.step) (timeless.passes d _ p) (λ q. q)
          (h (tick d));
  }

-- The directories after one of them has been replaced.
pub dir_at-set_dir :
    (seg k : Str) (x : RunDir) (d : Disk)
    → dir_at k (set_dir seg x d) ≡ (if str_eq seg k then x else dir_at k d)
unfolding dir_at
dir_at-set_dir seg k x d = rw (find-put seg k x d.runs) (ground arith)
