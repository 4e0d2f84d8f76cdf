-- ===== src/Protocol/Naming/Longest.antt =====
-- What `truncateUTF8` promises: the longest prefix that fits and splits no rune.
use partitionctl.Base.{
  ℕ, zero, suc, ◌+◌, ◌≤◌, ◌≡◌, refl, ap, ◌∙◌, sym, true, false, [], ◌∷◌, ◌++◌, ◌-◌, if◌then◌else◌,
  Str, length, drop, ltb, arith, length-append, Bool-cases, inl, inr, some,
}
use mathlib.Core.Path.{ap₂}
use partitionctl.Base.Utf8.{decode_rune, rune_len, encode_rune, rune_at, valid_from, valid_string}
use partitionctl.Base.Utf8.Laws.{length-encode_rune, encode-decode_rune}
use partitionctl.Base.Utf8.Prefix.{
  valid_from-rune, rune-valid_from, decode_rune-append, decode_rune-IsOwn, decode_rune-length,
}
use partitionctl.Protocol.Naming.{truncate_from, truncate_utf8}
use partitionctl.Protocol.Naming.Truncate.{length-truncate_utf8, truncate_utf8-prefix}

-- `t` is the longest prefix of `s` that has at most `n` bytes and ends where a rune ends.
pub record IsLongestPrefix (s : Str) (n : ℕ) (t : Str) : Type 0 where
  pub rest : Str
  pub prefix : t ++ rest ≡ s
  pub unsplit : valid_string t ≡ true
  pub fits : length t ≤ n
  pub longest :
      (u w : Str) → u ++ w ≡ s → valid_string u ≡ true → length u ≤ n → length u ≤ length t

length-drop : (k : ℕ) (s : Str) → length (drop k s) ≡ length s - k
length-drop zero s = omega arith
length-drop (suc k) [] = omega arith
length-drop (suc k) (c ∷ s) = omega (arith, length-drop k s)

drop-append : (k : ℕ) (s t : Str) → k ≤ length s → drop k (s ++ t) ≡ drop k s ++ t
drop-append zero s t h = refl
drop-append (suc k) [] t h = absurd (omega arith)
drop-append (suc k) (c ∷ s) t h = drop-append k s t (omega arith)

-- One rune of the loop.
truncate_from_rune :
    (used limit b : ℕ) (s : Str) (r k : ℕ)
    → decode_rune b s ≡ some (r, k)
    → truncate_from zero used limit (b ∷ s) ≡ (
        if ltb limit (used + rune_len r)
        then []
        else encode_rune r ++ truncate_from k (used + rune_len r) limit s)
unfolding truncate_from rune_at
truncate_from_rune used limit b s r k h = rw (h, rune_at) refl

empty_valid : valid_from zero [] ≡ true
unfolding valid_from
empty_valid = refl

truncate_from-valid :
    (k used limit : ℕ) (s : Str)
    → valid_from zero (drop k s) ≡ true
    → valid_from zero (truncate_from k used limit s) ≡ true
unfolding truncate_from
truncate_from-valid zero used limit [] h = h
truncate_from-valid (suc k) used limit [] h = h
truncate_from-valid (suc k) used limit (b ∷ s) h = truncate_from-valid k used limit s h
truncate_from-valid zero used limit (b ∷ s) h =
    let (r, k, good, after) = valid_from-rune b s h in
    let t = truncate_from k (used + rune_len r) limit s in
    ap (valid_from zero) (truncate_from_rune used limit b s r k good)
    ∙ (elim (Bool-cases (ltb limit (used + rune_len r))) [
      | inl over ↦ rw over empty_valid
      | inr fits ↦ rw fits (
          ap (λ e. valid_from zero (e ++ t)) (encode-decode_rune b s good)
          ∙ rune-valid_from b s t r k good
              (truncate_from-valid k (used + rune_len r) limit s after))
    ])

truncate_from-longest :
    (k used limit : ℕ) (s u w : Str)
    → u ++ w ≡ drop k s
    → valid_from zero u ≡ true
    → used + length u ≤ limit
    → length u ≤ length (truncate_from k used limit s)
unfolding truncate_from
truncate_from-longest k used limit s [] w e v fits = omega arith
truncate_from-longest zero used limit [] (b ∷ u) w e v fits = absurd (cc e)
truncate_from-longest (suc k) used limit [] (b ∷ u) w e v fits = absurd (cc e)
truncate_from-longest (suc k) used limit (c ∷ s) (b ∷ u) w e v fits =
    truncate_from-longest k used limit s (b ∷ u) w e v fits
truncate_from-longest zero used limit (c ∷ s) (b ∷ u) w e v fits =
    let (r, k, good, after) = valid_from-rune b u v in
    let same : b ≡ c = cc e in
    let tails : u ++ w ≡ s = cc e in
    let at_c : decode_rune c s ≡ some (r, k) =
      ap₂ decode_rune (sym same) (sym tails) ∙ decode_rune-append b u w r k good in
    let width = decode_rune-length b u r k good in
    let own = (decode_rune-IsOwn b u r k good).0 in
    let shorter = length-drop k u in
    let under : ltb limit (used + rune_len r) ≡ false = ground arith in
    let ih =
      truncate_from-longest k (used + rune_len r) limit s (drop k u) w
        (sym (drop-append k u w own) ∙ ap (drop k) tails) after (omega arith) in
    let whole = truncate_from_rune used limit c s r k at_c in
    rw (whole, under)
      (omega (
        arith,
        ih,
        length-encode_rune r,
        length-append (encode_rune r) (truncate_from k (used + rune_len r) limit s),
      ))

-- Of valid UTF-8, `truncateUTF8` returns the longest prefix that has at most so many bytes and does
-- not split a rune.
pub truncate_utf8-IsLongestPrefix :
    (s : Str) (n : ℕ) → valid_string s ≡ true → IsLongestPrefix s n (truncate_utf8 s n)
unfolding truncate_utf8 valid_string
truncate_utf8-IsLongestPrefix s n h =
    let (rest, e) = truncate_utf8-prefix s n h in
    record {
      rest = rest;
      prefix = e;
      unsplit = truncate_from-valid zero 0 n s h;
      fits = length-truncate_utf8 s n;
      longest = λ u w p v f. truncate_from-longest zero 0 n s u w p v (omega arith);
    }

-- There is only one such prefix.
pub IsLongestPrefix-unique :
    (s : Str) (n : ℕ) (t u : Str) → IsLongestPrefix s n t → IsLongestPrefix s n u → t ≡ u
IsLongestPrefix-unique s n t u p q =
    let len : length t ≡ length u = omega (
      arith,
      p.longest u q.rest q.prefix q.unsplit q.fits,
      q.longest t p.rest p.prefix p.unsplit p.fits,
    ) in
    same_start t u p.rest q.rest len (p.prefix ∙ sym q.prefix)
  where
    same_start : (t u x y : Str) → length t ≡ length u → t ++ x ≡ u ++ y → t ≡ u
    same_start [] [] x y l e = refl
    same_start [] (c ∷ u) x y l e = absurd (omega arith)
    same_start (c ∷ t) [] x y l e = absurd (omega arith)
    same_start (c ∷ t) (d ∷ u) x y l e =
        let h : c ≡ d = cc e in let tails = same_start t u x y (omega arith) (cc e) in cc
