-- ===== src/Downloader/Range/Bounds.antt =====
-- backend/internal/downloader/serve.go: which part of a file a Range header can get.
use mirrorhub.Base.{
  ℕ, ◌-◌, ◌≤◌, ◌<◌, not, ◌||◌, inl, inr, Option, none, some, arith, ◌==◌, ℤ, pos, negsuc, drop,
  Bool-cases,
}
use mirrorhub.Base.Text.{Text, codes, is_empty, trim_space, to_lower, has_prefix, contains}
use mirrorhub.Base.Split.{split_once}
use mirrorhub.Base.Numbers.{parse_int}
use mirrorhub.Downloader.Range.{
  ByteRange, whole, part, refused, parse_single_range, suffix_range, clamped, with_end, with_start,
  of_parts, of_spec,
}

-- A part that is not empty and lies in a file of this size, or no part.
abbrev pub IsInside : ℕ → ByteRange → Type 0
IsInside size whole = Unit
IsInside size (refused e) = Unit
IsInside size (part start stop) = (start ≤ stop) × (stop < size)

module _ (size : ℕ) (some_bytes : 0 < size) where
  suffix-IsInside : (n : Option ℤ) → IsInside size (suffix_range size n)
  suffix-IsInside none = tt
  suffix-IsInside (some (negsuc n)) = tt
  suffix-IsInside (some (pos n)) = ground arith

  clamped-IsInside : (start stop : ℕ) → start ≤ stop → IsInside size (clamped size start stop)
  clamped-IsInside start stop h = ground arith

  clamped_last-IsInside : (start : ℕ) → IsInside size (clamped size start (size - 1))
  clamped_last-IsInside start = ground arith

  with_end-IsInside : (start : ℕ) (n : Option ℤ) → IsInside size (with_end size start n)
  with_end-IsInside start none = tt
  with_end-IsInside start (some (negsuc n)) = tt
  with_end-IsInside start (some (pos stop)) = ground arith

  with_start-IsInside : (p1 : Text) (n : Option ℤ) → IsInside size (with_start size p1 n)
  with_start-IsInside p1 none = tt
  with_start-IsInside p1 (some (negsuc n)) = tt
  with_start-IsInside p1 (some (pos start)) = elim (Bool-cases (is_empty p1)) [
    | inl e ↦ rw e (clamped_last-IsInside start)
    | inr e ↦ rw e (with_end-IsInside start (parse_int p1))
  ]

  of_parts-IsInside : (p : Option (Text × Text)) → IsInside size (of_parts size p)
  of_parts-IsInside none = tt
  of_parts-IsInside (some (p0, p1)) = elim (Bool-cases (is_empty p0)) [
    | inl e ↦ rw e (suffix-IsInside (parse_int p1))
    | inr e ↦ rw e (with_start-IsInside p1 (parse_int p0))
  ]

  of_spec-IsInside : (spec : Text) → IsInside size (of_spec spec size)
  of_spec-IsInside spec = elim (Bool-cases (contains spec (codes ","))) [
    | inl e ↦ rw e tt
    | inr e ↦ rw e (of_parts-IsInside (split_once b'-' spec))
  ]

-- Whatever a client writes into the Range header: the part that it gets is not empty and ends
-- before the end of the file.
pub parse_single_range-IsInside :
    (header : Text) (size : ℕ) → IsInside size (parse_single_range header size)
unfolding parse_single_range
parse_single_range-IsInside header size =
    elim (Bool-cases (is_empty (trim_space header) || size == 0)) [
      | inl e ↦ rw e tt
      | inr e ↦
          rw e
            (elim (Bool-cases (not (has_prefix (codes "bytes=") (to_lower (trim_space header))))) [
              | inl u ↦ rw u tt
              | inr u ↦ rw u (
                  let some_bytes : 0 < size = ground arith in
                  of_spec-IsInside size some_bytes (trim_space (drop 6 (trim_space header))))
            ])
    ]
