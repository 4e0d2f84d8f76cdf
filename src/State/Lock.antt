-- ===== src/State/Lock.antt =====
-- engine/state/lock.go, with the lock file of engine/state/file.go.
use partitionctl.Base.{
  ℕ, ◌≡◌, ◌↔◌, Bool, true, ◌&&◌, ◌∷◌, ◌++◌, Str, str_eq, str_eq_iff, is_empty, Option,
  if◌then◌else◌, ◌▷◌, refuse, ℤ, arith,
}
use partitionctl.Protocol.Errors.{GoError, err_invalid_identifier}
use partitionctl.Protocol.ObjectName.{
  ObjectName, is_zero, validate, string, object_eq, object_eq_iff,
}
use partitionctl.State.Run.{Run}
use partitionctl.State.Lease.{has_passed}

pub record LockKey : Type 0 where
  pub database : Str
  pub table : ObjectName

-- `Run.LockKey` of engine/state/run.go.
unfoldable pub lock_key : Run → LockKey
lock_key r = record { database = r.target.database; table = r.target.table }

unfoldable pub key_string : LockKey → Str
key_string k = if is_empty k.database then string k.table else k.database ++ b'/' ∷ string k.table

-- Go's `==` on keys.
unfoldable pub key_eq : LockKey → LockKey → Bool
key_eq a b = str_eq a.database b.database && object_eq a.table b.table

pub key_eq_iff : (a b : LockKey) → (key_eq a b ≡ true) ↔ (a ≡ b)
unfolding key_eq
key_eq_iff a b = ground (arith, str_eq_iff a.database b.database, object_eq_iff a.table b.table)

unfoldable pub validate_key : LockKey → Option GoError
validate_key k = refuse (is_zero k.table) err_invalid_identifier ▷ validate k.table

-- The content of a lock file; the process id is left out, since only a message reads it.
pub record LockFile : Type 0 where
  pub key : LockKey
  pub holder : Str
  pub token : Str
  pub acquired : ℕ
  pub refreshed : ℕ
  pub ttl_seconds : ℤ

unfoldable pub is_stale : LockFile → ℕ → Bool
unfolding has_passed
is_stale l now = has_passed l.ttl_seconds l.refreshed now
