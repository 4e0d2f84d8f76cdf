-- ===== src/Base/Utf8/Prefix.antt =====
-- A rune is decided by its own bytes, whatever follows them.
use Prim.Native.Nat.{ℕ, zero, suc, ◌≤◌}
use mathlib.Core.Path.{◌≡◌, refl, ap, ◌∙◌, sym}
use mathlib.Core.Bool.{true}
use mathlib.Core.List.{[], ◌∷◌, ◌++◌, append_assoc}
use mathlib.Core.Option.{Option, some}
use native.Mathlib.Omega.{arith}
use partitionctl.Base.Lists.{length, take, drop}
use partitionctl.Base.Text.{Str}
use partitionctl.Base.Tests.{ltb, Bool-cases, Option-cases}
use partitionctl.Base.Utf8.Laws.{if_some-eq, pair-eq, length-encode_rune, encode-decode_rune}
use mathlib.Core.Logic.{inl, inr}
use partitionctl.Base.Utf8.{decode_rune, decode2, decode3, decode4, within, valid_from, rune_len}

some_eq {ℓ} : {A : Type ℓ} {x y : A} → some x ≡ some y → x ≡ y
some_eq e = cc

-- The bytes of a rune are there, and they alone decide it.
abbrev IsOwn : (Str → Option (ℕ × ℕ)) → Str → ℕ → ℕ → Type 0
IsOwn decode s r k = (k ≤ length s) × ((t : Str) → decode (take k s ++ t) ≡ some (r, k))

decode2-IsOwn : (b : ℕ) (s : Str) (r k : ℕ) → decode2 b s ≡ some (r, k) → IsOwn (decode2 b) s r k
unfolding decode2
decode2-IsOwn b [] r k h = absurd (cc h)
decode2-IsOwn b (c ∷ s) r k h =
    let (t, e) = if_some-eq _ _ h in
    let (er, ek) = pair-eq e in rw (← er, ← ek) (omega arith, λ u. rw t refl)

decode3-IsOwn : (b : ℕ) (s : Str) (r k : ℕ) → decode3 b s ≡ some (r, k) → IsOwn (decode3 b) s r k
unfolding decode3
decode3-IsOwn b [] r k h = absurd (cc h)
decode3-IsOwn b (c ∷ []) r k h = absurd (cc h)
decode3-IsOwn b (c ∷ d ∷ s) r k h =
    let (t, e) = if_some-eq _ _ h in
    let (er, ek) = pair-eq e in rw (← er, ← ek) (omega arith, λ u. rw t refl)

decode4-IsOwn : (b : ℕ) (s : Str) (r k : ℕ) → decode4 b s ≡ some (r, k) → IsOwn (decode4 b) s r k
unfolding decode4
decode4-IsOwn b [] r k h = absurd (cc h)
decode4-IsOwn b (c ∷ []) r k h = absurd (cc h)
decode4-IsOwn b (c ∷ d ∷ []) r k h = absurd (cc h)
decode4-IsOwn b (c ∷ d ∷ e ∷ s) r k h =
    let (t, q) = if_some-eq _ _ h in
    let (er, ek) = pair-eq q in rw (← er, ← ek) (omega arith, λ u. rw t refl)

pub decode_rune-IsOwn :
    (b : ℕ) (s : Str) (r k : ℕ) → decode_rune b s ≡ some (r, k) → IsOwn (decode_rune b) s r k
unfolding decode_rune
decode_rune-IsOwn b s r k h = elim (Bool-cases (ltb b 0x80)) [
  | inl e ↦
      let (er, ek) = pair-eq (some_eq (rw e at h)) in rw (← er, ← ek) (omega arith, λ u. rw e refl)
  | inr e1 ↦ elim (Bool-cases (within 0xc2 0xdf b)) [
    | inl e ↦ rw (e1, e) (decode2-IsOwn b s r k (rw (e1, e) at h))
    | inr e2 ↦ elim (Bool-cases (within 0xe0 0xef b)) [
      | inl e ↦ rw (e1, e2, e) (decode3-IsOwn b s r k (rw (e1, e2, e) at h))
      | inr e3 ↦ elim (Bool-cases (within 0xf0 0xf4 b)) [
        | inl e ↦ rw (e1, e2, e3, e) (decode4-IsOwn b s r k (rw (e1, e2, e3, e) at h))
        | inr e ↦ absurd (cc (rw (e1, e2, e3, e) at h))
      ]
    ]
  ]
]

take-drop : (k : ℕ) (s : Str) → take k s ++ drop k s ≡ s
take-drop zero s = refl
take-drop (suc k) [] = refl
take-drop (suc k) (c ∷ s) = ap (λ t. c ∷ t) (take-drop k s)

-- More bytes behind a rune do not change it.
pub decode_rune-append :
    (b : ℕ) (s w : Str) (r k : ℕ)
    → decode_rune b s ≡ some (r, k)
    → decode_rune b (s ++ w) ≡ some (r, k)
decode_rune-append b s w r k h =
    ap (λ x. decode_rune b (x ++ w)) (sym (take-drop k s))
    ∙ ap (decode_rune b) (append_assoc (take k s) (drop k s) w)
    ∙ (decode_rune-IsOwn b s r k h).1 (drop k s ++ w)

-- Validity past the bytes of the current rune.
pub valid_from-drop : (k : ℕ) (s : Str) → k ≤ length s → valid_from k s ≡ valid_from zero (drop k s)
unfolding valid_from
valid_from-drop zero s h = refl
valid_from-drop (suc k) [] h = absurd (omega arith)
valid_from-drop (suc k) (c ∷ s) h = valid_from-drop k s (omega arith)

pub valid_from-take :
    (k : ℕ) (s t : Str) → k ≤ length s → valid_from k (take k s ++ t) ≡ valid_from zero t
unfolding valid_from
valid_from-take zero s t h = refl
valid_from-take (suc k) [] t h = absurd (omega arith)
valid_from-take (suc k) (c ∷ s) t h = valid_from-take k s t (omega arith)

valid_from_rune :
    (b : ℕ) (s : Str) (r k : ℕ)
    → decode_rune b s ≡ some (r, k)
    → valid_from zero (b ∷ s) ≡ valid_from k s
unfolding valid_from
valid_from_rune b s r k h = rw (h, valid_from) refl

-- Valid UTF-8 begins with a rune, and goes on behind it.
pub valid_from-rune :
    (b : ℕ) (s : Str)
    → valid_from zero (b ∷ s) ≡ true
    → (r : ℕ) × (k : ℕ) × (decode_rune b s ≡ some (r, k)) × (valid_from zero (drop k s) ≡ true)
unfolding valid_from
valid_from-rune b s h = elim (Option-cases (decode_rune b s)) [
  | inl bad ↦ absurd (cc (bad, h))
  | inr ((r, k), good) ↦ (
    r,
    k,
    good,
    sym (valid_from-drop k s (decode_rune-IsOwn b s r k good).0) ∙ rw (good, valid_from) at h,
  )
]

pub rune-valid_from :
    (b : ℕ) (s t : Str) (r k : ℕ)
    → decode_rune b s ≡ some (r, k)
    → valid_from zero t ≡ true
    → valid_from zero (b ∷ (take k s ++ t)) ≡ true
rune-valid_from b s t r k h v =
    let own = decode_rune-IsOwn b s r k h in
    valid_from_rune b (take k s ++ t) r k (own.1 t) ∙ valid_from-take k s t own.0 ∙ v

length-take : (k : ℕ) (s : Str) → k ≤ length s → length (take k s) ≡ k
length-take zero s h = refl
length-take (suc k) [] h = absurd (omega arith)
length-take (suc k) (c ∷ s) h = omega (arith, length-take k s (omega arith))

-- The length of a rune's encoding is the number of its bytes.
pub decode_rune-length :
    (b : ℕ) (s : Str) (r k : ℕ) → decode_rune b s ≡ some (r, k) → rune_len r ≡ suc k
decode_rune-length b s r k h =
    sym (length-encode_rune r)
    ∙ ap length (encode-decode_rune b s h)
    ∙ ap suc (length-take k s (decode_rune-IsOwn b s r k h).0)
