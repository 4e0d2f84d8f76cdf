-- ===== src/Base/Utf8.antt =====
-- What the code uses of Go's `unicode/utf8` and of `range` over a string: one rune is decoded at a
-- time, a byte that begins no rune is U+FFFD of width one, and a written rune is encoded again.
pub mod Laws
pub mod Prefix
use partitionctl.Base.Tests.{ltb, leb, if◌then◌else◌}
use partitionctl.Base.Text.{Str}
use Prim.Native.Nat.{ℕ, zero, suc, ◌+◌, ◌-◌, ◌*◌, ◌/◌, ◌%◌}
use mathlib.Core.Bool.{Bool, true, false, ◌&&◌}
use mathlib.Core.List.{List, [], ◌∷◌, ◌++◌}
use mathlib.Core.Option.{Option, none, some}

abbrev pub rune_error : ℕ
rune_error = 0xfffd

-- A continuation byte within the bounds that the first byte sets.
abbrev pub within : ℕ → ℕ → ℕ → Bool
within lo hi c = leb lo c && leb c hi

-- The bounds of the second byte of a three-byte form, and of a four-byte form.
abbrev pub low3 : ℕ → ℕ
low3 b = if leb b 0xe0 then 0xa0 else 0x80

abbrev pub high3 : ℕ → ℕ
high3 b = if within 0xed 0xed b then 0x9f else 0xbf

abbrev pub low4 : ℕ → ℕ
low4 b = if leb b 0xf0 then 0x90 else 0x80

abbrev pub high4 : ℕ → ℕ
high4 b = if leb 0xf4 b then 0x8f else 0xbf

unfoldable pub decode2 : ℕ → Str → Option (ℕ × ℕ)
decode2 b (c ∷ s) = if within 0x80 0xbf c then some ((b - 0xc0) * 64 + (c - 0x80), 1) else none
decode2 b _ = none

unfoldable pub decode3 : ℕ → Str → Option (ℕ × ℕ)
decode3 b (c ∷ d ∷ s) =
    if within (low3 b) (high3 b) c && within 0x80 0xbf d
    then some ((b - 0xe0) * 4096 + (c - 0x80) * 64 + (d - 0x80), 2)
    else none
decode3 b _ = none

unfoldable pub decode4 : ℕ → Str → Option (ℕ × ℕ)
decode4 b (c ∷ d ∷ e ∷ s) =
    if within (low4 b) (high4 b) c && (within 0x80 0xbf d && within 0x80 0xbf e)
    then some ((b - 0xf0) * 262144 + (c - 0x80) * 4096 + (d - 0x80) * 64 + (e - 0x80), 3)
    else none
decode4 b _ = none

-- The rune that begins with byte `b`, and how many bytes of the rest belong to it.
unfoldable pub decode_rune : ℕ → Str → Option (ℕ × ℕ)
decode_rune b s =
    if ltb b 0x80
    then some (b, 0)
    else if within 0xc2 0xdf b
    then decode2 b s
    else if within 0xe0 0xef b
    then decode3 b s
    else if within 0xf0 0xf4 b
    then decode4 b s
    else none

-- What `range` gives for a text that begins with byte `b`: the rune, and how many bytes of the rest
-- belong to it. A byte that begins no rune is U+FFFD by itself.
unfoldable pub rune_at : ℕ → Str → ℕ × ℕ
rune_at b s = elim (decode_rune b s) [ none ↦ (rune_error, 0) | some p ↦ p ]

-- `utf8.ValidString`; the first argument counts the bytes of the current rune still to pass.
unfoldable pub valid_from : ℕ → Str → Bool
valid_from k [] = true
valid_from (suc k) (b ∷ s) = valid_from k s
valid_from zero (b ∷ s) = elim (decode_rune b s) [ none ↦ false | some (r, k) ↦ valid_from k s ]

unfoldable pub valid_string : Str → Bool
unfolding valid_from
valid_string s = valid_from 0 s

-- `utf8.RuneLen`, with the length of U+FFFD for what is no rune.
unfoldable pub rune_len : ℕ → ℕ
rune_len r =
    if ltb r 0x80
    then 1
    else if ltb r 0x800
    then 2
    else if within 0xd800 0xdfff r
    then 3
    else if ltb r 0x10000
    then 3
    else if ltb r 0x110000
    then 4
    else 3

encode3 : ℕ → Str
encode3 r = (0xe0 + r / 4096) ∷ (0x80 + r / 64 % 64) ∷ (0x80 + r % 64) ∷ []

encode4 : ℕ → Str
encode4 r =
    (0xf0 + r / 262144) ∷ (0x80 + r / 4096 % 64) ∷ (0x80 + r / 64 % 64) ∷ (0x80 + r % 64) ∷ []

-- `strings.Builder.WriteRune`.
unfoldable pub encode_rune : ℕ → Str
unfolding encode3 encode4
encode_rune r =
    if ltb r 0x80
    then r ∷ []
    else if ltb r 0x800
    then (0xc0 + r / 64) ∷ (0x80 + r % 64) ∷ []
    else if within 0xd800 0xdfff r
    then encode3 rune_error
    else if ltb r 0x10000
    then encode3 r
    else if ltb r 0x110000
    then encode4 r
    else encode3 rune_error
