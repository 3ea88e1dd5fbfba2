-- ===== src/Base/Text.antt =====
-- Go strings as lists of bytes, with what the code uses of the packages strings and strconv.
use Prim.Native.Char.{code}
use Prim.Native.String.{String}
use Prim.Native.Nat.{ℕ, zero, suc, ◌+◌, ◌-◌, ◌*◌, ◌/◌, ◌%◌, ◌≤◌, ◌<◌, ◌^◌}
use mathlib.Core.Path.{◌≡◌, refl, sym, ap, ◌∙◌}
use mathlib.Core.Logic.{◌≢◌, inl, inr}
use mathlib.Core.Bool.{Bool, true, false, ◌&&◌, ◌||◌}
use mathlib.Core.List.{
  List, [], ◌∷◌, ◌++◌, foldl, foldl-append, reverse, reverse_aux, reverse-reverse, reverse-append,
}
use native.Mathlib.Decide.{ℕ_discrete}
use native.Mathlib.Nat.{pow-suc}
use native.Mathlib.Omega.{arith}
use mirrorhub.Base.Lists.{All, All-append}
use mirrorhub.Base.Tests.{leb, ◌==◌, if◌then◌else◌, Bool-cases, u64_mod}

abbrev pub Text : Type 0
Text = List ℕ

-- The code points of a literal; these are its bytes when the text is ASCII.
abbrev pub codes : String → Text
codes String.[] = []
codes (String.◌∷◌ c s) = code c ∷ codes s

unfoldable pub text_dec : Discrete Text
unfolding ℕ_discrete
text_dec = hlevel ℕ_discrete

-- `a == b` on strings.
infix 50 ◌===◌
abbrev pub ◌===◌ : Text → Text → Bool
a === b = elim (text_dec a b) [ yes _ ↦ true | no _ ↦ false ]

abbrev pub is_empty : Text → Bool
is_empty [] = true
is_empty (_ ∷ _) = false

-- strings.HasPrefix
unfoldable pub has_prefix : Text → Text → Bool
has_prefix [] s = true
has_prefix (p ∷ ps) [] = false
has_prefix (p ∷ ps) (c ∷ s) = p == c && has_prefix ps s

-- strings.Contains(s, sub)
unfoldable pub contains : Text → Text → Bool
unfolding has_prefix
contains [] sub = is_empty sub
contains (c ∷ s) sub = has_prefix sub (c ∷ s) || contains s sub

-- strings.ToLower, on ASCII.
unfoldable pub to_lower : Text → Text
to_lower [] = []
to_lower (c ∷ s) = (if leb b'A' c && leb c b'Z' then c + 32 else c) ∷ to_lower s

-- The ASCII white space that strings.TrimSpace cuts.
is_space : ℕ → Bool
is_space c = c == 32 || (leb 9 c && leb c 13)

trim_left : Text → Text
unfolding is_space
trim_left [] = []
trim_left (c ∷ s) = let rest = trim_left s in if is_space c then rest else c ∷ s

-- strings.TrimSpace, on ASCII.
unfoldable pub trim_space : Text → Text
unfolding trim_left
trim_space s = reverse (trim_left (reverse (trim_left s)))

-- strconv.FormatUint(n, 10) for a number of at most `f` + 1 digits.
digits : ℕ → ℕ → Text
digits zero n = (48 + n) ∷ []
digits (suc f) n =
    let rest = digits f (n / 10) in if leb 10 n then rest ++ ((48 + n % 10) ∷ []) else (48 + n) ∷ []

-- A uint64 has at most twenty digits.
unfoldable pub format_uint : ℕ → Text
unfolding digits
format_uint n = digits 19 n

-- Reads the digits behind the last '#'.
abbrev pub seq_step : ℕ → ℕ → ℕ
seq_step acc c = if c == b'#' then 0 else acc * 10 + (c - 48)

pub seq_of : Text → ℕ
seq_of = foldl seq_step 0

seq_step_digit : (acc d : ℕ) → d < 10 → seq_step acc (48 + d) ≡ acc * 10 + d
seq_step_digit acc d h = ground arith

fold-digits : (f n : ℕ) → n < 10 ^ suc f → foldl seq_step 0 (digits f n) ≡ n
unfolding digits
fold-digits zero n h = ground (arith, seq_step_digit 0 n)
fold-digits (suc f) n h = elim (Bool-cases (leb 10 n)) [
  | inl big ↦ rw big (
      foldl-append seq_step 0 (digits f (n / 10)) ((48 + n % 10) ∷ [])
      ∙ rw (fold-digits f (n / 10) (omega (arith, pow-suc 10 (suc f))))
          (seq_step_digit (n / 10) (n % 10) (omega arith) ∙ omega arith))
  | inr small ↦ rw small (ground (arith, seq_step_digit 0 n))
]

-- The number behind the last '#' of `url#seq` is `seq`.
pub seq_of-format : (url : Text) (n : ℕ) → n < u64_mod → seq_of (url ++ b'#' ∷ format_uint n) ≡ n
unfolding seq_of format_uint
seq_of-format url n h =
    foldl-append seq_step 0 url (b'#' ∷ digits 19 n) ∙ fold-digits 19 n (omega arith)

-- Everything behind the blanks of ASCII.
abbrev pub is_solid : ℕ → Bool
is_solid c = leb 33 c

trim_left-solid : (s : Text) → All (λ c. is_solid c ≡ true) s → trim_left s ≡ s
unfolding trim_left is_space
trim_left-solid [] h = refl
trim_left-solid (c ∷ s) h = ground arith

All-reverse_aux {ℓ} : (P : ℕ → Type ℓ) (s t : Text) → All P s → All P t → All P (reverse_aux s t)
All-reverse_aux P [] t hs ht = ht
All-reverse_aux P (c ∷ s) t hs ht = All-reverse_aux P s (c ∷ t) hs.1 (hs.0, ht)

pub trim_space-solid : (s : Text) → All (λ c. is_solid c ≡ true) s → trim_space s ≡ s
unfolding trim_space
trim_space-solid s h =
    let back : All (λ c. is_solid c ≡ true) (reverse s) =
      All-reverse_aux (λ c. is_solid c ≡ true) s [] h tt in
    rw (trim_left-solid s h, trim_left-solid (reverse s) back) (reverse-reverse s)

abbrev pub IsDigit : ℕ → Type 0
IsDigit c = (48 ≤ c) × (c < 58)

digits-IsDigit : (f n : ℕ) → n < 10 ^ suc f → All IsDigit (digits f n)
unfolding digits
digits-IsDigit zero n h = ((omega arith, omega arith), tt)
digits-IsDigit (suc f) n h = elim (Bool-cases (leb 10 n)) [
  | inl big ↦
      let front = digits-IsDigit f (n / 10) (omega (arith, pow-suc 10 (suc f))) in
      rw big (
        All-append IsDigit (digits f (n / 10)) ((48 + n % 10) ∷ []) front
          ((omega arith, omega arith), tt))
  | inr small ↦ rw small ((omega arith, ground arith), tt)
]

pub format_uint-IsDigit : (n : ℕ) → n < u64_mod → All IsDigit (format_uint n)
unfolding format_uint
format_uint-IsDigit n h = digits-IsDigit 19 n (omega arith)

digits-∷ : (f n : ℕ) → (c : ℕ) × (s : Text) × (digits f n ≡ c ∷ s)
unfolding digits
digits-∷ zero n = (48 + n, [], refl)
digits-∷ (suc f) n = elim (Bool-cases (leb 10 n)) [
  | inl big ↦
      let (c, s, e) = digits-∷ f (n / 10) in (c, s ++ (48 + n % 10) ∷ [], rw big (rw e refl))
  | inr small ↦ (48 + n, [], rw small refl)
]

-- A number has a first digit.
pub format_uint-∷ : (n : ℕ) → (c : ℕ) × (s : Text) × (format_uint n ≡ c ∷ s)
unfolding format_uint
format_uint-∷ n = digits-∷ 19 n

-- The value of the digits as a sum from the left.
pub fold-format_uint : (n : ℕ) → n < u64_mod → foldl seq_step 0 (format_uint n) ≡ n
unfolding format_uint
fold-format_uint n h = fold-digits 19 n (omega arith)

trim_left-front :
    (s t : Text) → s ≢ [] → All (λ c. is_solid c ≡ true) s → trim_left (s ++ t) ≡ s ++ t
unfolding trim_left is_space
trim_left-front [] t h a = absurd (h refl)
trim_left-front (c ∷ s) t h a = ground (arith, a.0)

-- A text is not trimmed that starts with a byte, and ends with a word, behind the blanks.
pub trim_space-ends :
    (c : ℕ) (s word : Text)
    → is_solid c ≡ true
    → word ≢ []
    → All (λ d. is_solid d ≡ true) word
    → trim_space (c ∷ s ++ word) ≡ c ∷ s ++ word
unfolding trim_space
trim_space-ends c s word h there a =
    let back : All (λ d. is_solid d ≡ true) (reverse word) =
      All-reverse_aux (λ d. is_solid d ≡ true) word [] a tt in
    let some_back : reverse word ≢ [] = λ e. there (sym (reverse-reverse word) ∙ ap reverse e) in
    let front : trim_left (c ∷ s ++ word) ≡ c ∷ s ++ word =
      trim_left-front (c ∷ []) (s ++ word) (λ e. cc) (h, tt) in
    let split : reverse (c ∷ s ++ word) ≡ reverse word ++ reverse (c ∷ s) =
      reverse-append (c ∷ s) word in
    let kept : trim_left (reverse (c ∷ s ++ word)) ≡ reverse (c ∷ s ++ word) =
      rw split (trim_left-front (reverse word) (reverse (c ∷ s)) some_back back) in
    rw (front, kept) (reverse-reverse (c ∷ s ++ word))
