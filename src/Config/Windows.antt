-- ===== src/Config/Windows.antt =====
-- config.go: the time windows of the bandwidth limit. A clock time is a text `HH:MM`, as the code
-- keeps it. A bandwidth is a float64: only whether it is positive matters here.
pub mod Clock
use mirrorhub.Base.{
  ℕ, zero, suc, ◌+◌, ◌-◌, ◌*◌, ◌/◌, ◌%◌, Bool, true, false, not, ◌&&◌, ◌||◌, Option, none, some,
  List, [], ◌∷◌, ◌++◌, ltb, leb, ◌==◌, if◌then◌else◌, ℤ, pos, negsuc,
}
use mirrorhub.Base.Text.{Text, is_empty, trim_space}
use mirrorhub.Base.Split.{text_leb, is_digit}

-- What `%d` of fmt.Sscanf reads of digits: the number and the rest, if there is a digit.
unfoldable pub read_digits : Text → ℕ → Bool → Option (ℕ × Text)
read_digits [] n seen = if seen then some (n, []) else none
read_digits (c ∷ s) n seen =
    let rest = read_digits s (n * 10 + (c - 48)) true in
    if is_digit c then rest else if seen then some (n, c ∷ s) else none

unfoldable pub skip_blanks : Text → Text
skip_blanks [] = []
skip_blanks (c ∷ s) = let rest = skip_blanks s in if c == 32 then rest else c ∷ s

-- `%d`, with its sign. A negative number is none, since the caller accepts none.
unfoldable pub read_number : Text → Option (ℕ × Text)
unfolding skip_blanks read_digits
read_number s = elim (skip_blanks s) [
  | [] ↦ none
  | c ∷ r ↦ if c == b'+' then read_digits r 0 false else read_digits (c ∷ r) 0 false
]

-- `%02d`, of a number below 100.
abbrev pub two_digits : ℕ → Text
two_digits n = (48 + n / 10) ∷ (48 + n % 10) ∷ []

abbrev pub hm : ℕ → ℕ → Text
hm h m = two_digits h ++ b':' ∷ two_digits m

abbrev read_minutes : ℕ → Text → Text → Text
read_minutes h s whole = elim (read_number s) [
  | none ↦ whole
  | some (m, _) ↦ if ltb 23 h || ltb 59 m then whole else hm h m
]

unfoldable pub normalized : Text → Text
normalized s = elim (read_number s) [
  | none ↦ s
  | some (h, []) ↦ s
  | some (h, c ∷ r) ↦ if c == b':' then read_minutes h r s else s
]

-- NormalizeHM
unfoldable pub normalize_hm : Text → Text
normalize_hm s = normalized (trim_space s)

-- InHMWindow
unfoldable pub in_hm_window : Text → Text → Text → Bool
in_hm_window now start end =
    if is_empty start || is_empty end
    then false
    else if text_leb start end
    then text_leb start now && text_leb now end
    else text_leb start now || text_leb now end

module _ {ℓ} {B : Type ℓ} (is_positive : B → Bool) (unlimited : B) where
  pub record RateLimitWindow : Type ℓ where
    pub start : Text
    pub end : Text
    pub bandwidth : B

  abbrev positive_part : B → B
  positive_part b = if is_positive b then b else unlimited

  -- EffectiveBandwidthMbps at the clock time `now`: the first window that holds, or the default.
  unfoldable pub effective_bandwidth : Text → B → List RateLimitWindow → B
  effective_bandwidth now default [] = positive_part default
  effective_bandwidth now default (w ∷ ws) =
      let rest = effective_bandwidth now default ws in
      if in_hm_window now (normalize_hm w.start) (normalize_hm w.end)
      then positive_part w.bandwidth
      else rest

  -- The windows that applyDefaults keeps, normalized.
  unfoldable pub normalize_windows : List RateLimitWindow → List RateLimitWindow
  normalize_windows [] = []
  normalize_windows (w ∷ ws) =
      let rest = normalize_windows ws in
      let s = normalize_hm w.start in
      let e = normalize_hm w.end in
      if is_empty s || is_empty e
      then rest
      else record { start = s; end = e; bandwidth = positive_part w.bandwidth } ∷ rest
