-- ===== src/Base/Text.antt =====
-- Go strings: sequences of bytes, with Go's `==`.
use Prim.Native.Nat.{ℕ}
use Prim.Native.Char.{code}
use Prim.Native.String.{String}
use mathlib.Core.Path.{◌≡◌, refl, sym}
use mathlib.Core.Logic.{◌↔◌, inl, inr}
use mathlib.Core.Bool.{Bool, true, false, ◌&&◌, ◌||◌}
use mathlib.Core.List.{List, [], ◌∷◌}
use native.Mathlib.Omega.{arith}
use partitionctl.Base.Tests.{◌==◌, Bool-cases}
use partitionctl.Base.Lists.{Fresh}

-- A Go `string`: its bytes.
abbrev pub Str : Type 0
Str = List ℕ

-- The bytes of an ASCII literal.
abbrev pub codes : String → Str
codes String.[] = []
codes (String.◌∷◌ c s) = code c ∷ codes s

-- Go's `==` on strings.
unfoldable pub str_eq : Str → Str → Bool
str_eq [] [] = true
str_eq (a ∷ s) (b ∷ t) = (a == b) && str_eq s t
str_eq _ _ = false

pub str_eq_iff : (s t : Str) → (str_eq s t ≡ true) ↔ (s ≡ t)
unfolding str_eq
str_eq_iff [] [] = ground arith
str_eq_iff [] (b ∷ t) = ground arith
str_eq_iff (a ∷ s) [] = ground arith
str_eq_iff (a ∷ s) (b ∷ t) = ground (arith, str_eq_iff s t)

pub str_eq_refl : (s : Str) → str_eq s s ≡ true
str_eq_refl s = (str_eq_iff s s).1 refl

-- Go's `s == ""`.
abbrev pub is_empty : Str → Bool
is_empty [] = true
is_empty _ = false

-- A text stands in a list of texts, as in a Go map that is used as a set.
unfoldable pub has_str : List Str → Str → Bool
has_str [] s = false
has_str (t ∷ rest) s = str_eq t s || has_str rest s

-- A text that is not found is none of the elements, and one that is found is one of them.
pub has_str-Fresh : (seen : List Str) (s : Str) → has_str seen s ≡ false → Fresh s seen
unfolding has_str
has_str-Fresh [] s h = tt
has_str-Fresh (t ∷ seen) s h =
    ((λ e. ground (arith, str_eq_iff t s)), has_str-Fresh seen s (ground arith))

pub has_str_not-Fresh : (seen : List Str) (s : Str) → has_str seen s ≡ true → ¬ Fresh s seen
unfolding has_str
has_str_not-Fresh [] s h f = cc
has_str_not-Fresh (t ∷ seen) s h f = elim (Bool-cases (str_eq t s)) [
  | inl same ↦ f.0 (sym ((str_eq_iff t s).0 same))
  | inr diff ↦ has_str_not-Fresh seen s (rw diff at h) f.1
]
