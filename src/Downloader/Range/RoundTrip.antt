-- ===== src/Downloader/Range/RoundTrip.antt =====
-- backend/internal/downloader/serve.go, chunk.go, serial.go and head.go: the ranges that the
-- downloader asks for are the ones that a hub reads, and it reads back the size that a hub prints.
use mathlib.Core.List.{append_assoc}
use mirrorhub.Base.{
  ℕ, ◌-◌, ◌≤◌, ◌<◌, ◌≡◌, ◌≢◌, refl, sym, ap, ◌∙◌, subst, true, false, some, [], ◌∷◌, ◌++◌, arith,
  leb, ltb, ◌==◌, if◌then◌else◌, pos, All, All-append, All-map,
}
use mirrorhub.Base.Text.{
  Text, ◌===◌, trim_space-ends, codes, is_empty, trim_space, trim_space-solid, is_solid, to_lower,
  has_prefix, contains, format_uint, format_uint-IsDigit, format_uint-∷, IsDigit,
}
use mirrorhub.Base.Split.{split_once-append, contains_absent, after_last, after_last-append}
use mirrorhub.Base.Numbers.{max_int, parse_int-format_uint}
use mirrorhub.Downloader.Range.{
  part, parse_single_range, of_spec, with_start, chunk_range, total_in, resume_range, content_range,
  parse_content_range_total,
}

-- Bytes of a range's text: digits and what stands between them, none of them a blank or a comma.
abbrev IsPlain : ℕ → Type 0
IsPlain c = (45 ≤ c) × (c < 58)

star-IsDigit : ¬ All IsDigit (codes "*")
star-IsDigit d = omega (arith, d.0)

module _ (n : ℕ) (h : n ≤ max_int) where
  number-IsDigit : All IsDigit (format_uint n)
  number-IsDigit = format_uint-IsDigit n (omega arith)

  number-IsPlain : All IsPlain (format_uint n)
  number-IsPlain =
      All-map IsDigit IsPlain (λ c d. (omega (arith, d.0), d.1)) (format_uint n) number-IsDigit

  number_without : (b : ℕ) → b < 48 → All (λ c. c ≢ b) (format_uint n)
  number_without b small =
      All-map IsDigit (λ c. c ≢ b) (λ c d e. absurd (omega (arith, d.0, e))) (format_uint n)
        number-IsDigit

  -- No digit is a star.
  star : (format_uint n === codes "*") ≡ false
  star =
      let differs : format_uint n ≢ codes "*" =
        λ e. star-IsDigit (subst (All IsDigit) e number-IsDigit) in
      ground (arith, differs)

  number_there : is_empty (format_uint n) ≡ false
  number_there = let (c, s, e) = format_uint-∷ n in rw e refl

plain-is_solid : (s : Text) → All IsPlain s → All (λ c. is_solid c ≡ true) s
plain-is_solid s h = All-map IsPlain (λ c. is_solid c ≡ true) (λ c d. ground (arith, d.0)) s h

plain_comma : (s : Text) → All IsPlain s → contains s (codes ",") ≡ false
plain_comma s h =
    contains_absent 44 s
      (All-map IsPlain (λ c. c ≢ 44) (λ c d e. absurd (omega (arith, d.0, e))) s h)

-- A header of the right unit is read by what stands behind it.
bytes_header :
    (spec : Text) (size : ℕ)
    → All IsPlain spec
    → 0 < size
    → parse_single_range (codes "bytes=" ++ spec) size ≡ of_spec spec size
unfolding parse_single_range to_lower has_prefix
bytes_header spec size h pos_size =
    let solid = plain-is_solid spec h in
    let all : All (λ c. is_solid c ≡ true) (codes "bytes=" ++ spec) =
      (refl, (refl, (refl, (refl, (refl, (refl, solid)))))) in
    let some_bytes : (size == 0) ≡ false = ground arith in
    rw (trim_space-solid (codes "bytes=" ++ spec) all, some_bytes)
      (ap (λ t. of_spec t size) (trim_space-solid spec solid))

spec_parts :
    (a : ℕ) (t : Text) (size : ℕ)
    → a ≤ max_int
    → All IsPlain t
    → of_spec (format_uint a ++ b'-' ∷ t) size ≡ with_start size t (some (pos a))
spec_parts a t size ha ht =
    let plain : All IsPlain (format_uint a ++ b'-' ∷ t) =
      All-append IsPlain (format_uint a) (b'-' ∷ t) (number-IsPlain a ha)
        ((omega arith, omega arith), ht) in
    rw
      (
        plain_comma (format_uint a ++ b'-' ∷ t) plain,
        split_once-append 45 (format_uint a) t (number_without a ha 45 (omega arith)),
        number_there a ha,
        parse_int-format_uint a ha,
      )
      refl

pub parse_single_range-chunk_range :
    (a b size : ℕ)
    → a ≤ b
    → a < size
    → b ≤ max_int
    → parse_single_range (chunk_range a b) size ≡ part a (if leb size b then size - 1 else b)
unfolding chunk_range
parse_single_range-chunk_range a b size ab inside hb =
    let plain : All IsPlain (format_uint a ++ b'-' ∷ format_uint b) =
      All-append IsPlain (format_uint a) (b'-' ∷ format_uint b) (number-IsPlain a (omega arith))
        ((omega arith, omega arith), number-IsPlain b hb) in
    let ordered : ltb b a ≡ false = ground arith in
    let here : leb size a ≡ false = ground arith in
    bytes_header (format_uint a ++ b'-' ∷ format_uint b) size plain (omega arith)
    ∙ (spec_parts a (format_uint b) size (omega arith) (number-IsPlain b hb)
        ∙ rw (number_there b hb, parse_int-format_uint b hb, ordered, here) refl)

pub parse_single_range-resume_range :
    (a size : ℕ)
    → a < size
    → size ≤ max_int
    → parse_single_range (resume_range a) size ≡ part a (size - 1)
unfolding resume_range
parse_single_range-resume_range a size inside hs =
    let plain : All IsPlain (format_uint a ++ b'-' ∷ []) =
      All-append IsPlain (format_uint a) (b'-' ∷ []) (number-IsPlain a (omega arith))
        ((omega arith, omega arith), tt) in
    let here : leb size a ≡ false = ground arith in
    let last : leb size (size - 1) ≡ false = ground arith in
    bytes_header (format_uint a ++ b'-' ∷ []) size plain (omega arith)
    ∙ (spec_parts a [] size (omega arith) tt ∙ rw (here, last) refl)

regroup :
    (a b size : ℕ)
    → content_range a b size ≡ (
        b'b' ∷ (codes "ytes " ++ (format_uint a ++ b'-' ∷ format_uint b))
        ++ b'/' ∷ format_uint size)
unfolding content_range
regroup a b size =
    ap (λ t. codes "bytes " ++ t)
      (sym (append_assoc (format_uint a) (b'-' ∷ format_uint b) (b'/' ∷ format_uint size)))

total_in_number :
    (size : ℕ) → 0 < size → size ≤ max_int → total_in (some (format_uint size)) ≡ some size
total_in_number size sp hs =
    let some_size : (size == 0) ≡ false = ground arith in
    let kept =
      trim_space-solid (format_uint size)
        (plain-is_solid (format_uint size) (number-IsPlain size hs)) in
    rw (kept, star size hs, number_there size hs, parse_int-format_uint size hs, some_size) refl

pub parse_total-content_range :
    (a b size : ℕ)
    → a ≤ max_int
    → b ≤ max_int
    → 0 < size
    → size ≤ max_int
    → parse_content_range_total (content_range a b size) ≡ some size
unfolding parse_content_range_total content_range
parse_total-content_range a b size ha hb sp hs =
    let front = codes "ytes " ++ (format_uint a ++ b'-' ∷ format_uint b) in
    let text = b'b' ∷ front ++ b'/' ∷ format_uint size in
    let plain = number-IsPlain size hs in
    let solid = plain-is_solid (format_uint size) plain in
    let tail_solid : All (λ c. is_solid c ≡ true) (b'/' ∷ format_uint size) = (refl, solid) in
    let kept : trim_space text ≡ text =
      trim_space-ends 98 front (b'/' ∷ format_uint size) refl (λ e. cc) tail_solid in
    let found : after_last 47 text ≡ some (format_uint size) =
      after_last-append 47 (b'b' ∷ front) (format_uint size)
        (number_without size hs 47 (omega arith)) in
    ap (λ t. total_in (after_last 47 (trim_space t))) (regroup a b size)
    ∙ (ap (λ t. total_in (after_last 47 t)) kept ∙ (ap total_in found ∙ total_in_number size sp hs))
