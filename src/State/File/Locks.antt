-- ===== src/State/File/Locks.antt =====
-- The advisory locks of engine/state/file.go. A lock file is created exclusively, by one step of the
-- file system; a takeover of a stale file reads it back, so two processes cannot both succeed.
use partitionctl.Base.{
  ℕ, Bool, true, false, not, Str, str_eq, none, some, Option, if◌then◌else◌, refuse, ℤ, pos,
  is_positive, find, put, remove,
}
use partitionctl.Protocol.Errors.{err_lock_held, err_store_io, Result, ok, err}
use partitionctl.State.Lock.{LockKey, LockFile, key_string, key_eq, validate_key, is_stale}
use partitionctl.State.Disk.{
  Outcome, succeeds, fails_before, fails_after, Env, Disk, Act, ◌>>=◌, ◌>>◌, done_with, fail, check,
  optional, segment, read, write_lock, now, draw_token, tick,
}

-- A handle on a lock file.
pub record FileLock : Type 0 where
  pub key : LockKey
  pub token : Str
  pub released : Bool

-- `int(s.lockTTL / time.Second)`, with the default of 60 seconds.
abbrev pub lock_seconds : ℤ → ℤ
lock_seconds n = if is_positive n then n else pos 60

-- The exclusive creation of a lock file. A failure after the file was created removes it again, or
-- leaves it where `os.Remove` fails as well.
abbrev pub exclusive : Outcome → Option LockFile → (Disk → Disk) → Disk → Result Bool × Disk
exclusive succeeds none f d = (ok true, f d)
exclusive succeeds (some l) f d = (ok false, d)
exclusive fails_before none f d = (err err_store_io, d)
exclusive fails_after none f d = (err err_store_io, f d)
exclusive _ (some l) f d = (err err_store_io, d)

abbrev pub put_lock : Str → LockFile → Disk → Disk
put_lock seg l d = record d { locks = put seg l d.locks }

module _ (env : Env) where
  abbrev pub lock_path : LockKey → Str
  lock_path k = segment env (key_string k)

  abbrev pub lock_at : LockKey → Disk → Option LockFile
  lock_at k d = find (lock_path k) d.locks

  unfoldable pub read_lock : LockKey → Act LockFile
  read_lock k = read env (lock_at k)

  unfoldable pub create_exclusive : LockKey → LockFile → Act Bool
  create_exclusive k l d =
      exclusive (env.medium d.step) (lock_at k d) (put_lock (lock_path k) l) (tick d)

  unfoldable pub new_lock_file : LockKey → Str → ℕ → LockFile
  new_lock_file k token now = record {
    key = k;
    holder = env.holder;
    token = token;
    acquired = now;
    refreshed = now;
    ttl_seconds = lock_seconds env.lock_ttl;
  }

  abbrev pub handle : LockKey → Str → FileLock
  handle k token = record { key = k; token = token; released = false }

  -- The takeover of a lock file that is stale, and its read-back.
  unfoldable pub take_over : LockKey → LockFile → Act FileLock
  unfolding read_lock
  take_over k l =
      write_lock env (put (lock_path k) l)
      >> (read_lock k >>= λ after.
          if str_eq after.token l.token then done_with (handle k l.token) else fail err_lock_held)

  -- The file is there: it is contended, held, or stale.
  unfoldable pub contend : LockKey → LockFile → ℕ → Option LockFile → Act FileLock
  contend k l t none = fail err_lock_held
  contend k l t (some cur) = if is_stale cur t then take_over k l else fail err_lock_held

  unfoldable pub try_lock : LockKey → Act FileLock
  unfolding new_lock_file create_exclusive contend
  try_lock k =
      check (validate_key k)
      >> (now env 0 >>= λ t. draw_token env >>= λ token.
          create_exclusive k (new_lock_file k token t) >>= λ created.
          if created
          then done_with (handle k token)
          else (optional (read_lock k) >>= contend k (new_lock_file k token t) t))

  abbrev pub has_token : Str → Option LockFile → Bool
  has_token token none = false
  has_token token (some l) = str_eq l.token token

  unfoldable pub held : FileLock → Act Bool
  unfolding read_lock
  held l =
      if l.released
      then done_with false
      else (optional (read_lock l.key) >>= λ cur. done_with (has_token l.token cur))

  unfoldable pub refresh : FileLock → Act Unit
  unfolding read_lock
  refresh l =
      if l.released
      then fail err_lock_held
      else read_lock l.key >>= λ cur.
          check (refuse (not (str_eq cur.token l.token)) err_lock_held)
          >> (now env 0 >>= λ t.
              write_lock env (put (lock_path l.key) (record cur { refreshed = t })))

  -- The handle after the call is released in any case.
  unfoldable pub unlock : FileLock → Act FileLock
  unfolding read_lock
  unlock l =
      let done = record l { released = true } in
      if l.released
      then done_with done
      else optional (read_lock l.key) >>= λ cur.
          if has_token l.token cur
          then write_lock env (remove (lock_path l.key)) >> done_with done
          else done_with done

  -- `checkLock` of engine/state/lock.go; `none` is a lock that is `nil`.
  unfoldable pub check_lock : Option FileLock → LockKey → Act Unit
  unfolding held
  check_lock none k = fail err_lock_held
  check_lock (some l) k =
      check (refuse (not (key_eq l.key k)) err_lock_held)
      >> (held l >>= λ h. check (refuse (not h) err_lock_held))
