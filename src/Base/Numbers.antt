-- ===== src/Base/Numbers.antt =====
-- strconv.Atoi and strconv.ParseInt in base ten: reading what strconv.FormatInt prints.
use Prim.Native.Nat.{ℕ, zero, suc, ◌+◌, ◌-◌, ◌*◌, ◌≤◌, ◌<◌, ◌^◌}
use mathlib.Core.Path.{◌≡◌, refl, ap, ◌∙◌, subst}
use mathlib.Core.Bool.{true, false}
use mathlib.Core.List.{[], ◌∷◌, foldl}
use mathlib.Core.Option.{Option, none, some}
use native.Mathlib.Omega.{arith}
use mirrorhub.Base.Tests.{leb, ◌==◌, if◌then◌else◌, ℤ, pos, negsuc}
use mirrorhub.Base.Lists.{All}
use mirrorhub.Base.Text.{
  Text, IsDigit, seq_step, format_uint, format_uint-IsDigit, format_uint-∷, fold-format_uint,
}
use mirrorhub.Base.Split.{is_digit}

-- Reads digits to the end of the text.
unfoldable pub digits_value : Text → ℕ → Option ℕ
digits_value [] acc = some acc
digits_value (c ∷ s) acc =
    let rest = digits_value s (acc * 10 + (c - 48)) in if is_digit c then rest else none

abbrev pub max_int : ℕ
max_int = 2 ^ 63 - 1

abbrev pub unsigned : Text → Option ℕ
unsigned [] = none
unsigned (c ∷ s) = digits_value (c ∷ s) 0

abbrev pub in_range : Option ℕ → Option ℤ
in_range none = none
in_range (some n) = if leb n max_int then some (pos n) else none

abbrev pub minus_in_range : Option ℕ → Option ℤ
minus_in_range none = none
minus_in_range (some zero) = some (pos 0)
minus_in_range (some (suc n)) = if leb n max_int then some (negsuc n) else none

-- strconv.ParseInt(s, 10, 64); an error is none.
unfoldable pub parse_int : Text → Option ℤ
parse_int [] = none
parse_int (c ∷ s) =
    if c == b'+'
    then in_range (unsigned s)
    else if c == b'-'
    then minus_in_range (unsigned s)
    else in_range (unsigned (c ∷ s))

digits_value-fold :
    (s : Text) (acc : ℕ) → All IsDigit s → digits_value s acc ≡ some (foldl seq_step acc s)
unfolding digits_value
digits_value-fold [] acc h = refl
digits_value-fold (c ∷ s) acc h =
    let step : seq_step acc c ≡ acc * 10 + (c - 48) = ground (arith, h.0) in
    let digit : is_digit c ≡ true = ground (arith, h.0) in
    rw (digit, step) (digits_value-fold s (acc * 10 + (c - 48)) h.1)

parse_int-digits :
    (c : ℕ) (s : Text)
    → All IsDigit (c ∷ s)
    → parse_int (c ∷ s) ≡ in_range (some (foldl seq_step 0 (c ∷ s)))
unfolding parse_int
parse_int-digits c s h =
    let plus : (c == b'+') ≡ false = ground (arith, h.0) in
    let dash : (c == b'-') ≡ false = ground (arith, h.0) in
    rw (plus, dash) (ap in_range (digits_value-fold (c ∷ s) 0 h))

-- A printed int64 that is not negative is read back.
pub parse_int-format_uint : (n : ℕ) → n ≤ max_int → parse_int (format_uint n) ≡ some (pos n)
parse_int-format_uint n h =
    let (c, s, e) = format_uint-∷ n in
    let small : n < 2 ^ 64 = omega arith in
    let digits : All IsDigit (c ∷ s) = subst (All IsDigit) e (format_uint-IsDigit n small) in
    let value : foldl seq_step 0 (c ∷ s) ≡ n =
      subst (λ t. foldl seq_step 0 t ≡ n) e (fold-format_uint n small) in
    let fits : leb n max_int ≡ true = ground arith in
    ap parse_int e ∙ (parse_int-digits c s digits ∙ rw (value, fits) refl)
