-- ===== src/Executor/Classify.antt =====
-- engine/executor/classify.go: which failures may be retried. The condition's name is left out. A
-- driver's code is what `SQLState` finds in the error, in one of the two ways the code knows.
use partitionctl.Base.{
  Bool, true, false, ◌||◌, List, [], ◌∷◌, Str, codes, str_eq, length, take, ◌==◌, if◌then◌else◌,
  has_str, none, some, Option,
}
use partitionctl.Protocol.Errors.{
  GoError, typed, wrapped, foreign, Foreign, context_cancelled, sql_state, connection_lost,
  network_timeout, network_error, opaque, ExitCode, exit_code_for, exit_insufficient_privilege,
}

pub data ErrorClass : Type 0 where
  class_none class_retryable class_terminal class_cancelled : ErrorClass

-- `exit_code` is 0 for "no opinion".
pub record Classification : Type 0 where
  pub class : ErrorClass
  pub sqlstate : Str
  pub exit_code : ExitCode

unfoldable pub is_retryable_class : ErrorClass → Bool
is_retryable_class class_retryable = true
is_retryable_class _ = false

abbrev pub retryable_states : List Str
retryable_states =
    codes "40000"
    ∷ codes "40001"
    ∷ codes "40003"
    ∷ codes "40P01"
    ∷ codes "55006"
    ∷ codes "55P03"
    ∷ codes "53200"
    ∷ codes "53300"
    ∷ codes "53400"
    ∷ codes "58000"
    ∷ codes "58030"
    ∷ codes "72000"
    ∷ []

-- The terminal states with an exit code of their own, and those without one.
abbrev pub privilege_states : List Str
privilege_states = codes "42501" ∷ codes "28000" ∷ codes "28P01" ∷ []

abbrev pub terminal_states : List Str
terminal_states =
    codes "42601"
    ∷ codes "42P07"
    ∷ codes "42P01"
    ∷ codes "42703"
    ∷ codes "42704"
    ∷ codes "42710"
    ∷ codes "23505"
    ∷ codes "23514"
    ∷ codes "23503"
    ∷ codes "0A000"
    ∷ codes "53100"
    ∷ codes "40002"
    ∷ codes "55000"
    ∷ codes "58P01"
    ∷ codes "58P02"
    ∷ codes "XX000"
    ∷ []

abbrev pub classified : ErrorClass → Str → ExitCode → Classification
classified c s e = record { class = c; sqlstate = s; exit_code = e }

-- `state[:2]` is one of the two classes that are retryable as a whole.
unfoldable pub retryable_prefix : Str → Bool
retryable_prefix s = str_eq (take 2 s) (codes "08") || str_eq (take 2 s) (codes "57")

unfoldable pub classify_sql_state : Str → Classification
classify_sql_state s =
    if has_str retryable_states s
    then classified class_retryable s 0
    else if has_str privilege_states s
    then classified class_terminal s exit_insufficient_privilege
    else if has_str terminal_states s
    then classified class_terminal s 0
    else if retryable_prefix s
    then classified class_retryable s 0
    else classified class_terminal s 0

-- The error at the end of a chain, where it is one of another package.
unfoldable pub cause_of : GoError → Option Foreign
cause_of (typed k c) = none
cause_of (wrapped k c e) = cause_of e
cause_of (foreign f) = some f

unfoldable pub classify_transport : GoError → Option Foreign → Classification
classify_transport e (some connection_lost) = classified class_retryable [] 0
classify_transport e (some network_timeout) = classified class_retryable [] 0
classify_transport e (some network_error) = classified class_retryable [] 0
classify_transport e _ = classified class_terminal [] (exit_code_for e)

-- A code that has not five characters is passed over.
unfoldable pub classify_cause : GoError → Option Foreign → Classification
classify_cause e (some context_cancelled) = classified class_cancelled [] 0
classify_cause e (some (sql_state s)) =
    if length s == 5 then classify_sql_state s else classify_transport e (some opaque)
classify_cause e c = classify_transport e c

-- `Classify` of an error that is not `nil`.
unfoldable pub classify : GoError → Classification
classify e = classify_cause e (cause_of e)
