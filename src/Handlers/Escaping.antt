-- ===== src/Handlers/Escaping.antt =====
-- backend/internal/handlers/goproxy/path.go: the escape of capital letters in module paths.
use mirrorhub.Base.{
  ℕ, ◌-◌, ◌≡◌, ◌≢◌, refl, subst, Bool, true, false, ◌&&◌, inr, [], ◌∷◌, arith, leb, ◌==◌,
  if◌then◌else◌, All,
}
use mirrorhub.Base.Text.{Text, codes, trim_space}
use mirrorhub.Handlers.Goproxy.{escape_ascii, escape_or, escape_path}

abbrev is_upper : ℕ → Bool
is_upper c = leb b'A' c && leb c b'Z'

-- The reading of an escaped text as Go's module proxies document it: `!` stands before the small
-- letter of a capital one. `mark` says whether the last byte was one.
abbrev unescape_from : Bool → Text → Text
unescape_from mark [] = []
unescape_from true (c ∷ s) = (c - 32) ∷ unescape_from false s
unescape_from false (c ∷ s) =
    let marked = unescape_from true s in
    let plain = unescape_from false s in if c == b'!' then marked else c ∷ plain

abbrev pub unescape : Text → Text
unescape = unescape_from false

unescape-escape_ascii : (s : Text) → All (λ c. c ≢ b'!') s → unescape (escape_ascii s) ≡ s
unfolding escape_ascii
unescape-escape_ascii [] h = refl
unescape-escape_ascii (c ∷ s) h = ground (arith, h.0, unescape-escape_ascii s h.1)

escape_ascii_small : (s : Text) → All (λ c. is_upper c ≡ false) (escape_ascii s)
unfolding escape_ascii
escape_ascii_small [] = tt
escape_ascii_small (c ∷ s) = ground (arith, escape_ascii_small s)

escaped_or :
    (msg s q : Text)
    → All (λ c. c ≢ b'!') s
    → escape_or msg s ≡ inr q
    → (unescape q ≡ s) × All (λ c. is_upper c ≡ false) q
escaped_or msg [] q h e = cc
escaped_or msg (c ∷ s) q h e =
    let same : escape_ascii (c ∷ s) ≡ q = cc in
    subst (λ t. (unescape t ≡ c ∷ s) × All (λ d. is_upper d ≡ false) t) same
      (unescape-escape_ascii (c ∷ s) h, escape_ascii_small (c ∷ s))

-- Where EscapePath escapes a module path without an exclamation mark, the escaped path has no
-- capital letter, and reading the escapes back gives the path without the blanks around it; so no
-- two such paths are escaped alike.
pub unescape-escape_path :
    (p q : Text)
    → All (λ c. c ≢ b'!') (trim_space p)
    → escape_path p ≡ inr q
    → (unescape q ≡ trim_space p) × All (λ c. is_upper c ≡ false) q
unfolding escape_path
unescape-escape_path p q h e = escaped_or (codes "empty module path") (trim_space p) q h e
