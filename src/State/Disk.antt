-- ===== src/State/Disk.antt =====
-- The directories of engine/state/file.go, and engine/state/atomic.go: a record is read whole and
-- written by a rename, so that a write leaves the previous record or the new one. Calls are actions
-- on the disk that return a value or an error; the store's mutex makes each call one action.
pub mod Hoare
pub mod Accesses
use partitionctl.Base.{
  ℕ, zero, suc, ◌+◌, Bool, true, false, not, ◌&&◌, ◌||◌, List, [], ◌∷◌, ◌++◌, Str, codes, str_eq,
  none, some, Option, if◌then◌else◌, ℤ, leb, ltb, ◌==◌, length, find, put,
}
use partitionctl.Protocol.Errors.{
  GoError, state_not_found, err_not_found, err_store_io, is_kind, Result, ok, err,
}
use partitionctl.State.Run.{Run}
use partitionctl.State.Node.{NodeRecord}
use partitionctl.State.Lease.{Lease}
use partitionctl.State.Lock.{LockFile}
use partitionctl.State.Authorization.{AuthorizationRecord}
use partitionctl.State.Audit.{AuditEvent}

-- What becomes of a write: it fails with the old content, or fails with the new one (a sync or a
-- close that fails after it, or the test hook after the rename).
pub data Outcome : Type 0 where
  succeeds fails_before fails_after : Outcome

-- The surroundings, by the number of the step: the medium, which decides reads, writes and
-- the token of a lock, `os.Stat`, the clock and crypto/rand.
-- `digest` is the hexadecimal text of the first eight bytes of SHA-256. `lock_ttl` is
-- `s.lockTTL / time.Second`.
pub record Env : Type 0 where
  pub medium : ℕ → Outcome
  pub stat_fails : ℕ → Bool
  pub clock : ℕ → ℕ
  pub random : ℕ → Str
  pub digest : Str → Str
  pub holder : Str
  pub lock_ttl : ℤ

-- The directory of a run. The files of `nodes` are keyed by their encoded segment; authorizations
-- stand by rising number, and `audit` holds the complete lines of the trail, the oldest first.
pub record RunDir : Type 0 where
  pub run : Option Run
  pub lease : Option Lease
  pub nodes : List (Str × NodeRecord)
  pub authorizations : List AuthorizationRecord
  pub audit : List AuditEvent

abbrev pub empty_dir : RunDir
empty_dir = record { run = none; lease = none; nodes = []; authorizations = []; audit = [] }

pub record Disk : Type 0 where
  pub runs : List (Str × RunDir)
  pub locks : List (Str × LockFile)
  pub step : ℕ

-- `segmentSafe`.
segment_safe : ℕ → Bool
segment_safe b =
    (leb b'a' b && leb b b'z')
    || (leb b'A' b && leb b b'Z')
    || (leb b'0' b && leb b b'9')
    || b == b'-'
    || b == b'_'
    || b == b'.'

-- The loop of `encodeSegment`: `first` is `i == 0`, and `room` what the limit leaves.
readable : ℕ → Bool → Str → Str
unfolding segment_safe
readable zero first s = []
readable (suc room) first [] = []
readable (suc room) first (c ∷ s) =
    (if segment_safe c && not (first && c == b'.') then c else b'_') ∷ readable room false s

unfoldable pub encode_segment : (Str → Str) → Str → Str
unfolding readable
encode_segment digest id = readable 48 true id ++ b'-' ∷ digest id

abbrev pub dir_or_empty : Option RunDir → RunDir
dir_or_empty none = empty_dir
dir_or_empty (some d) = d

-- The directory at a segment; a directory that is not there has no files.
unfoldable pub dir_at : Str → Disk → RunDir
dir_at seg d = dir_or_empty (find seg d.runs)

abbrev pub Act : Type 0 → Type 0
Act A = Disk → Result A × Disk

abbrev pub continue : {A B : Type 0} → Result A × Disk → (A → Act B) → Result B × Disk
continue (ok a, d) f = f a d
continue (err e, d) f = (err e, d)

infixl 5 ◌>>=◌
unfoldable pub ◌>>=◌ : {A B : Type 0} → Act A → (A → Act B) → Act B
(m >>= f) d = continue (m d) f

infixl 5 ◌>>◌
unfoldable pub ◌>>◌ : {A B : Type 0} → Act A → Act B → Act B
(m >> k) d = continue (m d) (λ _. k)

unfoldable pub done_with : {A : Type 0} → A → Act A
done_with a d = (ok a, d)

unfoldable pub fail : {A : Type 0} → GoError → Act A
fail e d = (err e, d)

unfoldable pub check : Option GoError → Act Unit
check none = done_with tt
check (some e) = fail e

unfoldable pub lift : {A : Type 0} → Result A → Act A
lift (ok a) = done_with a
lift (err e) = fail e

-- `errors.Is(err, ErrNotFound)` is no error but an absence.
abbrev pub absent_or : {A : Type 0} → Result A × Disk → Result (Option A) × Disk
absent_or (ok a, d) = (ok (some a), d)
absent_or (err e, d) = if is_kind state_not_found e then (ok none, d) else (err e, d)

unfoldable pub optional : {A : Type 0} → Act A → Act (Option A)
optional m d = absent_or (m d)

abbrev pub tick : Disk → Disk
tick d = record d { step = d.step + 1 }

abbrev pub read_result : {A : Type 0} → Outcome → Option A → Result A
read_result succeeds none = err err_not_found
read_result succeeds (some a) = ok a
read_result _ _ = err err_store_io

abbrev pub written : Outcome → (Disk → Disk) → Disk → Result (Unit {0}) × Disk
written succeeds f d = (ok tt, f d)
written fails_before f d = (err err_store_io, d)
written fails_after f d = (err err_store_io, f d)

-- The directory of a segment becomes another.
abbrev pub set_dir : Str → RunDir → Disk → Disk
set_dir seg x d = record d { runs = put seg x d.runs }

abbrev pub stat_result : {A : Type 0} → Bool → Option A → Bool
stat_result fails none = false
stat_result fails (some a) = not fails

module _ (env : Env) where
  abbrev pub segment : Str → Str
  segment id = encode_segment env.digest id

  -- `readJSON`: a file that is not there is `ErrNotFound`, any other failure `ErrStoreIO`.
  unfoldable pub read : {A : Type 0} → (Disk → Option A) → Act A
  read file d = (read_result (env.medium d.step) (file d), tick d)

  -- A listing, which is of no files where the directory is not there.
  unfoldable pub list : {A : Type 0} → (Disk → A) → Act A
  list files d = (read_result (env.medium d.step) (some (files d)), tick d)

  -- `os.Stat(path)` returns no error: any failure reads as an absent file.
  unfoldable pub is_there : {A : Type 0} → (Disk → Option A) → Act Bool
  is_there file d = (ok (stat_result (env.stat_fails d.step) (file d)), tick d)

  -- `writeJSON` into the directory of a run.
  unfoldable pub write : Str → (RunDir → RunDir) → Act Unit
  write id f d =
      written (env.medium d.step) (λ v. set_dir (segment id) (f (dir_at (segment id) v)) v) (tick d)

  unfoldable pub write_lock : (List (Str × LockFile) → List (Str × LockFile)) → Act Unit
  write_lock f d = written (env.medium d.step) (λ v. record v { locks = f v.locks }) (tick d)

  -- `s.now(at)`.
  unfoldable pub now : ℕ → Act ℕ
  now at d = (ok (if at == 0 then env.clock d.step else at), tick d)

  -- The random part of `NewRunID`, where a failure of crypto/rand is a panic.
  unfoldable pub draw : Act Str
  draw d = (ok (env.random d.step), tick d)

  -- The token of a lock, where a failure of crypto/rand is an error.
  unfoldable pub draw_token : Act Str
  draw_token d = (read_result (env.medium d.step) (some (env.random d.step)), tick d)
