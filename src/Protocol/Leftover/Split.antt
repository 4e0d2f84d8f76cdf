-- ===== src/Protocol/Leftover/Split.antt =====
-- Splitting a name at its suffix.
use partitionctl.Base.{
  ℕ, zero, suc, ◌-◌, ◌≡◌, refl, ap, ◌∙◌, sym, true, false, [], ◌∷◌, ◌++◌, Str, str_eq, str_eq_iff,
  str_eq_refl, ◌↔◌, codes, length, take, drop, arith, All, length-append, inl, inr, Bool-cases,
}
use mathlib.Core.List.{append_assoc}
use partitionctl.Protocol.Leftover.{
  LeftoverKind, leftover_new, leftover_old, is_none, leftover_new_prefix, leftover_old_prefix,
  is_digit, cons_unless_trimmed, trim_digits, has_suffix, trim_suffix, split_leftover,
}

-- Only decimal digits.
abbrev pub IsDigits : Str → Type 0
IsDigits = All (λ c. is_digit c ≡ true)

trim_digits-digits : (d : Str) → IsDigits d → trim_digits d ≡ []
unfolding trim_digits
trim_digits-digits [] h = refl
trim_digits-digits (c ∷ d) h = rw (trim_digits-digits d h.1, h.0)

-- A text that ends in no digit, followed by digits.
trim_digits-append :
    (s d : Str) (c : ℕ) → is_digit c ≡ false → IsDigits d → trim_digits (s ++ c ∷ d) ≡ s ++ c ∷ []
unfolding trim_digits
trim_digits-append [] d c h hd = rw (trim_digits-digits d hd, h)
trim_digits-append (b ∷ []) d c h hd = rw (trim_digits-digits d hd, h)
trim_digits-append (b ∷ e ∷ s) d c h hd =
    ap (λ l. cons_unless_trimmed b l) (trim_digits-append (e ∷ s) d c h hd)

take-length : (s t : Str) → take (length s) (s ++ t) ≡ s
take-length [] t = refl
take-length (c ∷ s) t = ap (λ l. c ∷ l) (take-length s t)

drop-length : (s t : Str) → drop (length s) (s ++ t) ≡ t
drop-length [] t = refl
drop-length (c ∷ s) t = drop-length s t

-- The length of what precedes a suffix.
front_length : (s p : Str) → length (s ++ p) - length p ≡ length s
front_length s p = omega (arith, length-append s p)

has_suffix-append : (s p : Str) → has_suffix (s ++ p) p ≡ true
unfolding has_suffix
has_suffix-append s p =
    rw (front_length s p, drop-length s p, str_eq_refl) (ground (arith, length-append s p))

trim_suffix-append : (s p : Str) → trim_suffix (s ++ p) p ≡ s
unfolding trim_suffix
trim_suffix-append s p = rw (has_suffix-append s p, front_length s p, take-length s p)

take-append-drop : (n : ℕ) (s : Str) → take n s ++ drop n s ≡ s
take-append-drop zero s = refl
take-append-drop (suc n) [] = refl
take-append-drop (suc n) (c ∷ s) = ap (λ l. c ∷ l) (take-append-drop n s)

-- A text with a suffix is what precedes it, and the suffix.
has_suffix-parts : (s p : Str) → has_suffix s p ≡ true → trim_suffix s p ++ p ≡ s
unfolding has_suffix trim_suffix
has_suffix-parts s p h =
    ground
      (arith, str_eq_iff (drop (length s - length p) s) p, take-append-drop (length s - length p) s)

trim_cons :
    (c : ℕ) (s t : Str)
    → (t ++ drop (length t) s ≡ s) × IsDigits (drop (length t) s)
    → (cons_unless_trimmed c t ++ drop (length (cons_unless_trimmed c t)) (c ∷ s) ≡ c ∷ s)
      × IsDigits (drop (length (cons_unless_trimmed c t)) (c ∷ s))
trim_cons c s [] (e, d) = elim (Bool-cases (is_digit c)) [
  | inl yes_digit ↦ rw yes_digit (refl, (yes_digit, d))
  | inr no_digit ↦ rw no_digit (refl, d)
]
trim_cons c s (b ∷ t) (e, d) = (ap (λ l. c ∷ l) e, d)

trim_digits-parts :
    (s : Str)
    → (trim_digits s ++ drop (length (trim_digits s)) s ≡ s)
      × IsDigits (drop (length (trim_digits s)) s)
unfolding trim_digits
trim_digits-parts [] = (refl, tt)
trim_digits-parts (c ∷ s) = trim_cons c s (trim_digits s) (trim_digits-parts s)

-- The two suffixes that PostgreSQL appends, with the class that they stand for.
pub data IsSuffix : LeftoverKind → Str → Type 0 where
  new_suffix : (d : Str) → IsDigits d → IsSuffix leftover_new (leftover_new_prefix ++ d)
  old_suffix : (d : Str) → IsDigits d → IsSuffix leftover_old (leftover_old_prefix ++ d)

trim_new :
    (t d : Str)
    → IsDigits d
    → trim_digits (t ++ (leftover_new_prefix ++ d)) ≡ t ++ leftover_new_prefix
trim_new t d h =
    ap trim_digits (sym (append_assoc t (codes "_ccne") (b'w' ∷ d)))
    ∙ trim_digits-append (t ++ codes "_ccne") d b'w' refl h
    ∙ append_assoc t (codes "_ccne") (b'w' ∷ [])

trim_old :
    (t d : Str)
    → IsDigits d
    → trim_digits (t ++ (leftover_old_prefix ++ d)) ≡ t ++ leftover_old_prefix
trim_old t d h =
    ap trim_digits (sym (append_assoc t (codes "_ccol") (b'd' ∷ d)))
    ∙ trim_digits-append (t ++ codes "_ccol") d b'd' refl h
    ∙ append_assoc t (codes "_ccol") (b'd' ∷ [])

drop_front : (t p d : Str) → drop (length (t ++ p)) (t ++ (p ++ d)) ≡ d
drop_front t p d = ap (drop (length (t ++ p))) (sym (append_assoc t p d)) ∙ drop-length (t ++ p) d

-- A name that ends in `_ccold` does not end in `_ccnew`.
old_not_new : (t : Str) → has_suffix (t ++ leftover_old_prefix) leftover_new_prefix ≡ false
unfolding has_suffix str_eq
old_not_new t =
    rw (front_length t leftover_old_prefix, drop-length t leftover_old_prefix) (ground arith)

-- A name that PostgreSQL made is split into the text before the suffix and the suffix.
pub split_leftover-append :
    {k : LeftoverKind} (t : Str) {suffix : Str}
    → IsSuffix k suffix
    → split_leftover (t ++ suffix) ≡ record { kind = k; stem = t; suffix = suffix }
unfolding split_leftover
split_leftover-append t (new_suffix d h) = rw (
  trim_new t d h,
  has_suffix-append t leftover_new_prefix,
  trim_suffix-append t leftover_new_prefix,
  drop_front t leftover_new_prefix d,
)
split_leftover-append t (old_suffix d h) = rw (
  trim_old t d h,
  old_not_new t,
  has_suffix-append t leftover_old_prefix,
  trim_suffix-append t leftover_old_prefix,
  drop_front t leftover_old_prefix d,
)

-- Conversely a name that is split at a suffix is the stem and the suffix.
pub split_leftover-parts :
    (name : Str)
    → is_none (split_leftover name).kind ≡ false
    → IsSuffix (split_leftover name).kind (split_leftover name).suffix
      × ((split_leftover name).stem ++ (split_leftover name).suffix ≡ name)
unfolding split_leftover
split_leftover-parts name h =
    let t = trim_digits name in
    let d = drop (length t) name in
    let (whole, digits) = trim_digits-parts name in
    elim (Bool-cases (has_suffix t leftover_new_prefix)) [
      | inl n ↦ rw n (
        new_suffix d digits,
        sym (append_assoc (trim_suffix t leftover_new_prefix) leftover_new_prefix d)
            ∙ ap (λ l. l ++ d) (has_suffix-parts t leftover_new_prefix n)
            ∙ whole,
      )
      | inr n ↦ elim (Bool-cases (has_suffix t leftover_old_prefix)) [
        | inl o ↦
            rw (n, o)
              (
                old_suffix d digits,
                sym (append_assoc (trim_suffix t leftover_old_prefix) leftover_old_prefix d)
                    ∙ ap (λ l. l ++ d) (has_suffix-parts t leftover_old_prefix o)
                    ∙ whole,
              )
        | inr o ↦ cc (rw (n, o) at h)
      ]
    ]

-- A leftover's name: some stem with one of the suffixes behind it.
pub record IsLeftover (name : Str) : Type 0 where
  pub kind : LeftoverKind
  pub stem : Str
  pub suffix : Str
  pub is_suffix : IsSuffix kind suffix
  pub made : name ≡ stem ++ suffix

pub suffix_is_some : {k : LeftoverKind} {s : Str} → IsSuffix k s → is_none k ≡ false
suffix_is_some (new_suffix d h) = refl
suffix_is_some (old_suffix d h) = refl

pub split_leftover_iff :
    (name : Str) → (is_none (split_leftover name).kind ≡ false) ↔ IsLeftover name
split_leftover_iff name = (
  λ h.
      let (is_suffix, whole) = split_leftover-parts name h in
      record { kind = _; stem = _; suffix = _; is_suffix = is_suffix; made = sym whole },
  λ l.
      ap (λ n. is_none (split_leftover n).kind) l.made
      ∙ ap (λ s. is_none s.kind) (split_leftover-append l.stem l.is_suffix)
      ∙ suffix_is_some l.is_suffix,
)
