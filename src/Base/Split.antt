-- ===== src/Base/Split.antt =====
-- Cutting Go strings apart and comparing them.
use Prim.Native.Nat.{ℕ, suc}
use mathlib.Core.Bool.{Bool, true, false, ◌&&◌, ◌||◌}
use mathlib.Core.List.{List, [], ◌∷◌, ◌++◌}
use mathlib.Core.Path.{◌≡◌, refl}
use mathlib.Core.Logic.{◌≢◌}
use native.Mathlib.Omega.{arith}
use mirrorhub.Base.Tests.{leb, ltb, ◌==◌, if◌then◌else◌}
use mathlib.Core.Option.{Option, none, some}
use mirrorhub.Base.Text.{Text, is_empty, to_lower, has_prefix, contains, ◌===◌}
use mirrorhub.Base.Lists.{drop, length, All}

-- The first part grows by one byte.
abbrev pub push_first : ℕ → List Text → List Text
push_first c [] = (c ∷ []) ∷ []
push_first c (p ∷ ps) = (c ∷ p) ∷ ps

-- strings.Split at a single byte.
unfoldable pub split_byte : ℕ → Text → List Text
split_byte b [] = [] ∷ []
split_byte b (c ∷ s) = let rest = split_byte b s in if c == b then [] ∷ rest else push_first c rest

-- strings.EqualFold, on ASCII.
unfoldable pub equal_fold : Text → Text → Bool
equal_fold a b = to_lower a === to_lower b

-- strings.TrimPrefix
unfoldable pub trim_prefix : Text → Text → Text
trim_prefix s p = if has_prefix p s then drop (length p) s else s

-- `a <= b` on strings: bytes in order.
unfoldable pub text_leb : Text → Text → Bool
text_leb [] b = true
text_leb (c ∷ a) [] = false
text_leb (c ∷ a) (d ∷ b) = let rest = text_leb a b in ltb c d || (c == d && rest)

abbrev pub is_digit : ℕ → Bool
is_digit c = leb b'0' c && leb c b'9'

-- strings.Index; none is -1.
unfoldable pub index_of : Text → Text → Option ℕ
index_of sub [] = if is_empty sub then some 0 else none
index_of sub (c ∷ s) =
    let later : Option ℕ = elim (index_of sub s) [ none ↦ none | some i ↦ some (suc i) ] in
    if has_prefix sub (c ∷ s) then some 0 else later

-- strings.SplitN(s, b, 2), where it gives two parts.
unfoldable pub split_once : ℕ → Text → Option (Text × Text)
split_once b [] = none
split_once b (c ∷ s) =
    let later : Option (Text × Text) = elim (split_once b s) [
      | none ↦ none
      | some (l, r) ↦ some (c ∷ l, r)
    ] in
    if c == b then some ([], s) else later

-- What stands behind the last `b`, by strings.LastIndexByte.
unfoldable pub after_last : ℕ → Text → Option Text
after_last b [] = none
after_last b (c ∷ s) = elim (after_last b s) [
  | none ↦ if c == b then some s else none
  | some t ↦ some t
]

module _ (b : ℕ) where
  pub split_once-append :
      (s t : Text) → All (λ c. c ≢ b) s → split_once b (s ++ b ∷ t) ≡ some (s, t)
  unfolding split_once
  split_once-append [] t h = ground arith
  split_once-append (c ∷ s) t h = ground (arith, h.0, split_once-append s t h.1)

  after_last_absent : (t : Text) → All (λ c. c ≢ b) t → after_last b t ≡ none
  unfolding after_last
  after_last_absent [] h = refl
  after_last_absent (c ∷ t) h = ground (arith, h.0, after_last_absent t h.1)

  pub after_last-append : (s t : Text) → All (λ c. c ≢ b) t → after_last b (s ++ b ∷ t) ≡ some t
  unfolding after_last
  after_last-append [] t h = ground (arith, after_last_absent t h)
  after_last-append (c ∷ s) t h = rw (after_last-append s t h) refl

  -- A byte that does not stand in a text.
  pub contains_absent : (t : Text) → All (λ c. c ≢ b) t → contains t (b ∷ []) ≡ false
  unfolding contains has_prefix
  contains_absent [] h = refl
  contains_absent (c ∷ t) h = ground (arith, h.0, contains_absent t h.1)
