-- ===== src/Base/Dict.antt =====
-- A Go map or a directory with string keys: entries in the order in which their keys were first
-- written. Lists sorted by a strict order, as `sort.Slice` leaves them where no two elements tie.
use mathlib.Core.Path.{◌≡◌}
use mathlib.Core.Bool.{Bool, true, false, ◌&&◌, ◌||◌}
use mathlib.Core.Option.{Option, none, some}
use mathlib.Core.List.{List, [], ◌∷◌}
use native.Mathlib.Omega.{arith}
use partitionctl.Base.Tests.{◌==◌, ltb, if◌then◌else◌}
use partitionctl.Base.Text.{Str, str_eq, str_eq_iff}

module _ {ℓ} {V : Type ℓ} where
  unfoldable pub find : Str → List (Str × V) → Option V
  find k [] = none
  find k ((j, v) ∷ l) = if str_eq j k then some v else find k l

  unfoldable pub put : Str → V → List (Str × V) → List (Str × V)
  put k v [] = (k, v) ∷ []
  put k v ((j, w) ∷ l) = let rest = put k v l in if str_eq j k then (k, v) ∷ l else (j, w) ∷ rest

  unfoldable pub remove : Str → List (Str × V) → List (Str × V)
  remove k [] = []
  remove k ((j, w) ∷ l) = let rest = remove k l in if str_eq j k then rest else (j, w) ∷ rest

  pub find-put :
      (k j : Str) (v : V) (l : List (Str × V))
      → find j (put k v l) ≡ (if str_eq k j then some v else find j l)
  unfolding find put
  find-put k j v [] = ground arith
  find-put k j v ((i, w) ∷ l) =
      ground (arith, find-put k j v l, str_eq_iff i k, str_eq_iff i j, str_eq_iff k j)

  pub find-remove :
      (k j : Str) (l : List (Str × V))
      → find j (remove k l) ≡ (if str_eq k j then none else find j l)
  unfolding find remove
  find-remove k j [] = ground arith
  find-remove k j ((i, w) ∷ l) =
      ground (arith, find-remove k j l, str_eq_iff i k, str_eq_iff i j, str_eq_iff k j)

  abbrev pub values : List (Str × V) → List V
  values [] = []
  values ((k, v) ∷ l) = v ∷ values l

-- Go's `<` on strings.
unfoldable pub str_lt : Str → Str → Bool
str_lt [] [] = false
str_lt [] (b ∷ t) = true
str_lt (a ∷ s) [] = false
str_lt (a ∷ s) (b ∷ t) = ltb a b || ((a == b) && str_lt s t)

module _ {ℓ} {A : Type ℓ} (before : A → A → Bool) where
  unfoldable pub insert_sorted : A → List A → List A
  insert_sorted x [] = x ∷ []
  insert_sorted x (y ∷ ys) =
      let rest = insert_sorted x ys in if before x y then x ∷ y ∷ ys else y ∷ rest

  unfoldable pub sort : List A → List A
  unfolding insert_sorted
  sort [] = []
  sort (x ∷ xs) = insert_sorted x (sort xs)
