-- ===== src/Handlers.antt =====
-- backend/internal/handlers: which paths belong to which registry, and the URLs of Go modules.
-- Texts are ASCII. The packages goproxy, npm and huggingface have the same normalizePath.
pub mod Goproxy
pub mod Npm
pub mod HuggingFace
pub mod Routing
pub mod Escaping
use mirrorhub.Base.{
  ℕ, ◌-◌, Bool, true, false, not, [], ◌∷◌, reverse, leb, ◌==◌, if◌then◌else◌, count, ltb,
}
use mirrorhub.Base.Text.{Text, codes, is_empty, has_prefix}

-- normalizePath
unfoldable pub normalize_path : Text → Text
normalize_path path =
    if is_empty path then codes "/" else if has_prefix (codes "/") path then path else b'/' ∷ path

-- strings.HasSuffix
abbrev pub has_suffix : Text → Text → Bool
has_suffix s suffix = has_prefix (reverse suffix) (reverse s)

-- strings.TrimLeft and TrimRight with "/", and both.
unfoldable pub trim_left_slashes : Text → Text
trim_left_slashes [] = []
trim_left_slashes (c ∷ s) = let rest = trim_left_slashes s in if c == b'/' then rest else c ∷ s

abbrev pub trim_right_slashes : Text → Text
trim_right_slashes s = reverse (trim_left_slashes (reverse s))
