-- ===== src/Base/Utf8/Laws.antt =====
-- Decoding and encoding agree.
use Prim.Native.Nat.{ℕ, ◌+◌, ◌-◌, ◌*◌, ◌≤◌, ◌<◌}
use mathlib.Core.Logic.{◌⊎◌}
use mathlib.Core.Path.{◌≡◌, refl, ap, ◌∙◌}
use mathlib.Core.Bool.{true, Bool, ◌&&◌}
use mathlib.Core.List.{List, [], ◌∷◌}
use mathlib.Core.Option.{none, some}
use native.Mathlib.Omega.{arith}
use partitionctl.Base.Lists.{length, take}
use partitionctl.Base.Text.{Str}
use partitionctl.Base.Tests.{leb, if◌then◌else◌}
use partitionctl.Base.Utf8.{
  decode_rune, decode2, decode3, decode4, rune_len, encode_rune, encode3, encode4, within, low3,
  high3, low4, high4,
}

-- A written rune has the length that `RuneLen` gives.
pub length-encode_rune : (r : ℕ) → length (encode_rune r) ≡ rune_len r
unfolding encode_rune rune_len
length-encode_rune r = ground arith

encode_three :
    (r : ℕ) → 0x800 ≤ r → r < 0x10000 → (r < 0xd800) ⊎ (0xdfff < r) → encode_rune r ≡ encode3 r
unfolding encode_rune
encode_three r lo hi out = ground arith

encode_four : (r : ℕ) → 0x10000 ≤ r → r < 0x110000 → encode_rune r ≡ encode4 r
unfolding encode_rune
encode_four r lo hi = ground arith

cons_eq {ℓ} : {A : Type ℓ} {x y : A} {s t : List A} → x ≡ y → s ≡ t → x ∷ s ≡ y ∷ t
cons_eq p q = cc

encode-decode2 :
    (b : ℕ) (s : Str) {r k : ℕ}
    → 0xc2 ≤ b
    → b ≤ 0xdf
    → decode2 b s ≡ some (r, k)
    → encode_rune r ≡ b ∷ take k s
unfolding decode2 encode_rune
encode-decode2 b [] lo hi h = cc
encode-decode2 b (c ∷ s) lo hi h = ground arith

surrogate_free :
    (b c d : ℕ)
    → 0x80 ≤ c
    → c ≤ 0xbf
    → 0x80 ≤ d
    → d ≤ 0xbf
    → 0xe0 ≤ b
    → b ≤ 0xef
    → (b ≡ 0xed → c ≤ 0x9f)
    → let v = (b - 0xe0) * 4096 + (c - 0x80) * 64 + (d - 0x80) in (v < 0xd800) ⊎ (0xdfff < v)
surrogate_free b c d c1 c2 d1 d2 lo hi c4 = grind arith

three_bytes :
    (b c d : ℕ)
    → 0xe0 ≤ b
    → within 0x80 0xbf c ≡ true
    → within 0x80 0xbf d ≡ true
    → encode3 ((b - 0xe0) * 4096 + (c - 0x80) * 64 + (d - 0x80)) ≡ b ∷ c ∷ d ∷ []
unfolding encode3
three_bytes b c d lo hc hd =
    let c1 : 0x80 ≤ c = ground arith in
    let c2 : c ≤ 0xbf = ground arith in
    let d1 : 0x80 ≤ d = ground arith in
    let d2 : d ≤ 0xbf = ground arith in
    cons_eq (omega arith) (cons_eq (omega arith) (cons_eq (omega arith) refl))

module _ {ℓ} {A : Type ℓ} where
  pub if_some-eq :
      (t : Bool) (x : A) {y : A} → (if t then some x else none) ≡ some y → (t ≡ true) × (x ≡ y)
  if_some-eq t x h = ground arith

and-eq_true : (a b : Bool) → (a && b) ≡ true → (a ≡ true) × (b ≡ true)
and-eq_true a b h = ground arith

pub pair-eq : {a b c d : ℕ} → ◌≡◌ {A = ℕ × ℕ} (a, b) (c, d) → (a ≡ c) × (b ≡ d)
pair-eq e = (ap (λ p. p.0) e, ap (λ p. p.1) e)

within_bounds : (lo hi c : ℕ) → within lo hi c ≡ true → (lo ≤ c) × (c ≤ hi)
within_bounds lo hi c h = ground arith

low3_cases : (b c : ℕ) → leb (low3 b) c ≡ true → (0xe1 ≤ b) ⊎ (0xa0 ≤ c)
low3_cases b c h = grind arith

high4_cases : (b c : ℕ) → leb c (high4 b) ≡ true → (b ≤ 0xf3) ⊎ (c ≤ 0x8f)
high4_cases b c h = grind arith

low4_cases : (b c : ℕ) → leb (low4 b) c ≡ true → (0xf1 ≤ b) ⊎ (0x90 ≤ c)
low4_cases b c h = grind arith

encode_three_value :
    (b c d : ℕ)
    → 0xe0 ≤ b
    → b ≤ 0xef
    → within (low3 b) (high3 b) c ≡ true
    → within 0x80 0xbf d ≡ true
    → encode_rune ((b - 0xe0) * 4096 + (c - 0x80) * 64 + (d - 0x80)) ≡ b ∷ c ∷ d ∷ []
encode_three_value b c d lo hi hc hd =
    let (d1, d2) = within_bounds 0x80 0xbf d hd in
    let c1 : 0x80 ≤ c = ground arith in
    let c2 : c ≤ 0xbf = ground arith in
    let c3 : (0xe1 ≤ b) ⊎ (0xa0 ≤ c) = low3_cases b c (and-eq_true _ _ hc).0 in
    let c4 : (b ≡ 0xed) → c ≤ 0x9f = λ e. ground arith in
    let hc' : within 0x80 0xbf c ≡ true = ground arith in
    let v : ℕ = (b - 0xe0) * 4096 + (c - 0x80) * 64 + (d - 0x80) in
    let out : (v < 0xd800) ⊎ (0xdfff < v) = surrogate_free b c d c1 c2 d1 d2 lo hi c4 in
    encode_three v (omega arith) (omega arith) out ∙ three_bytes b c d lo hc' hd

encode-decode3 :
    (b : ℕ) (s : Str) {r k : ℕ}
    → 0xe0 ≤ b
    → b ≤ 0xef
    → decode3 b s ≡ some (r, k)
    → encode_rune r ≡ b ∷ take k s
unfolding decode3
encode-decode3 b [] lo hi h = cc
encode-decode3 b (c ∷ []) lo hi h = cc
encode-decode3 b (c ∷ d ∷ s) {r} {k} lo hi h =
    let (t, e) = if_some-eq _ _ h in
    let (hc, hd) = and-eq_true _ _ t in
    let (er, ek) = pair-eq e in rw (← er, ← ek) (encode_three_value b c d lo hi hc hd)

encode_four_value :
    (b c d e : ℕ)
    → 0xf0 ≤ b
    → b ≤ 0xf4
    → within (low4 b) (high4 b) c ≡ true
    → within 0x80 0xbf d ≡ true
    → within 0x80 0xbf e ≡ true
    → encode_rune ((b - 0xf0) * 262144 + (c - 0x80) * 4096 + (d - 0x80) * 64 + (e - 0x80))
      ≡ b ∷ c ∷ d ∷ e ∷ []
unfolding encode4
encode_four_value b c d e lo hi hc hd he =
    let (d1, d2) = within_bounds 0x80 0xbf d hd in
    let (e1, e2) = within_bounds 0x80 0xbf e he in
    let c1 : 0x80 ≤ c = ground arith in
    let c2 : c ≤ 0xbf = ground arith in
    let both = and-eq_true (leb (low4 b) c) (leb c (high4 b)) hc in
    let c3 : (0xf1 ≤ b) ⊎ (0x90 ≤ c) = low4_cases b c both.0 in
    let c4 : (b ≤ 0xf3) ⊎ (c ≤ 0x8f) = high4_cases b c both.1 in
    encode_four _ (omega arith) (omega arith)
    ∙ cons_eq (omega arith)
        (cons_eq (omega arith) (cons_eq (omega arith) (cons_eq (omega arith) refl)))

encode-decode4 :
    (b : ℕ) (s : Str) {r k : ℕ}
    → 0xf0 ≤ b
    → b ≤ 0xf4
    → decode4 b s ≡ some (r, k)
    → encode_rune r ≡ b ∷ take k s
unfolding decode4
encode-decode4 b [] lo hi h = cc
encode-decode4 b (c ∷ []) lo hi h = cc
encode-decode4 b (c ∷ d ∷ []) lo hi h = cc
encode-decode4 b (c ∷ d ∷ e ∷ s) {r} {k} lo hi h =
    let (t, eq) = if_some-eq _ _ h in
    let (hc, hde) = and-eq_true _ _ t in
    let (hd, he) = and-eq_true _ _ hde in
    let (er, ek) = pair-eq eq in rw (← er, ← ek) (encode_four_value b c d e lo hi hc hd he)

encode_ascii : (b : ℕ) → b < 0x80 → encode_rune b ≡ b ∷ []
unfolding encode_rune
encode_ascii b h = ground arith

-- A decoded rune is encoded as the bytes that it was read from.
pub encode-decode_rune :
    (b : ℕ) (s : Str) {r k : ℕ} → decode_rune b s ≡ some (r, k) → encode_rune r ≡ b ∷ take k s
unfolding decode_rune
encode-decode_rune b s {r} {k} h = ground (
  arith,
  encode_ascii b,
  encode-decode2 b s {r = r} {k = k},
  encode-decode3 b s {r = r} {k = k},
  encode-decode4 b s {r = r} {k = k},
)
