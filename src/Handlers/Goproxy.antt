-- ===== src/Handlers/Goproxy.antt =====
-- backend/internal/handlers/goproxy/path.go: the paths of the Go module proxy and of the checksum
-- database, and where they are fetched. An error is its message.
use mirrorhub.Base.{
  ◌+◌, Bool, true, false, not, ◌&&◌, ◌||◌, ◌⊎◌, inl, inr, none, some, [], ◌∷◌, ◌++◌, leb, ◌==◌,
  if◌then◌else◌, count, drop,
}
use mirrorhub.Base.Text.{Text, codes, is_empty, has_prefix, contains, to_lower, trim_space, ◌===◌}
use mirrorhub.Base.Split.{split_once}
use mirrorhub.Handlers.{normalize_path, has_suffix, trim_right_slashes}

-- IsSumDBPath
unfoldable pub is_sum_db_path : Text → Bool
is_sum_db_path path = has_prefix (codes "/sumdb/") (normalize_path path)

-- IsSumDBSupported
unfoldable pub is_sum_db_supported : Text → Bool
is_sum_db_supported path =
    let path = normalize_path path in
    has_prefix (codes "/sumdb/") path && has_suffix path (codes "/supported")

-- IsGoproxyPath
unfoldable pub is_goproxy_path : Text → Bool
is_goproxy_path path =
    let path = normalize_path path in
    if is_sum_db_path path
    then true
    else if has_suffix path (codes "/@latest")
    then leb 2 (count (λ c. c == b'/') path)
    else contains path (codes "/@v/")

-- IsPackagePath
unfoldable pub is_package_path : Text → Bool
is_package_path path =
    let path = normalize_path path in
    let lower = to_lower path in
    if not (contains path (codes "/@v/"))
    then false
    else has_suffix lower (codes ".mod") || has_suffix lower (codes ".zip")

-- IsIndexPath
unfoldable pub is_index_path : Text → Bool
is_index_path path =
    let path = normalize_path path in
    if is_sum_db_supported path
    then false
    else if is_sum_db_path path
    then true
    else if has_suffix path (codes "/@latest")
    then true
    else if has_suffix path (codes "/@v/list")
    then true
    else contains path (codes "/@v/") && has_suffix (to_lower path) (codes ".info")

abbrev pub clean_base : Text → Text
clean_base base = trim_right_slashes (trim_space base)

-- The path behind the name of the database.
abbrev pub behind_db : Text → Text
behind_db path =
    if has_prefix (codes "/sumdb/") path
    then (elim (split_once b'/' (drop 7 path)) [ none ↦ codes "/" | some (_, rest) ↦ b'/' ∷ rest ])
    else path

-- SumDBUpstreamURL
unfoldable pub sum_db_upstream_url : Text → Text → Text
sum_db_upstream_url sum_base path =
    let base = clean_base sum_base in
    let path = normalize_path path in
    let rest = behind_db path in
    if is_empty base
    then []
    else if rest === codes "/supported" || has_suffix path (codes "/supported")
    then []
    else base ++ rest

abbrev pub is_official : Text → Bool
is_official base = contains (to_lower base) (codes "sum.golang.org")

-- SumDBFetchURL
unfoldable pub sum_db_fetch_url : Text → Text → Text
sum_db_fetch_url sum_base path =
    let base = clean_base sum_base in
    let path = normalize_path path in
    if is_sum_db_supported path
    then []
    else if is_official base
    then sum_db_upstream_url base path
    else base ++ path

-- escapeASCII
unfoldable pub escape_ascii : Text → Text
escape_ascii [] = []
escape_ascii (c ∷ s) =
    let rest = escape_ascii s in
    if leb b'A' c && leb c b'Z' then b'!' ∷ (c + 32) ∷ rest else c ∷ rest

abbrev pub escape_or : Text → Text → Text ⊎ Text
escape_or msg s = if is_empty s then inl msg else inr (escape_ascii s)

-- EscapePath
unfoldable pub escape_path : Text → Text ⊎ Text
escape_path p = escape_or (codes "empty module path") (trim_space p)

-- EscapeVersion
unfoldable pub escape_version : Text → Text ⊎ Text
escape_version v = escape_or (codes "empty version") (trim_space v)

-- Both escaped, or the first error.
abbrev pub escape_both : Text → Text → Text ⊎ (Text × Text)
escape_both path version = elim (escape_path path) [
  | inl msg ↦ inl msg
  | inr p ↦ elim (escape_version version) [ inl msg ↦ inl msg | inr v ↦ inr (p, v) ]
]

abbrev pub lookup_url : Text → Text × Text → Text ⊎ Text
lookup_url base (p, v) =
    if is_empty base
    then inl (codes "empty sumdb upstream")
    else if is_official base
    then inr (trim_right_slashes base ++ (codes "/lookup/" ++ (p ++ b'@' ∷ v)))
    else inr (base ++ (codes "/sumdb/sum.golang.org/lookup/" ++ (p ++ b'@' ∷ v)))

-- PrefetchLookupURL
unfoldable pub prefetch_lookup_url : Text → Text → Text → Text ⊎ Text
prefetch_lookup_url sum_base path version = elim (escape_both path version) [
  | inl msg ↦ inl msg
  | inr pv ↦ lookup_url (clean_base sum_base) pv
]

pub record ModuleUrls : Type 0 where
  pub info : Text
  pub mod_file : Text
  pub zip : Text
  pub lookup : Text ⊎ Text

abbrev pub urls_of : Text → Text ⊎ Text → Text × Text → ModuleUrls
urls_of base lookup (p, v) =
    let prefix = base ++ (b'/' ∷ (p ++ (codes "/@v/" ++ v))) in
    record {
      info = prefix ++ codes ".info";
      mod_file = prefix ++ codes ".mod";
      zip = prefix ++ codes ".zip";
      lookup = lookup;
    }

-- ModuleProxyURLs; the lookup has an error of its own.
unfoldable pub module_proxy_urls : Text → Text → Text → Text → Text ⊎ ModuleUrls
module_proxy_urls mod_base sum_base path version = elim (escape_both path version) [
  | inl msg ↦ inl msg
  | inr pv ↦ inr (urls_of (clean_base mod_base) (prefetch_lookup_url sum_base path version) pv)
]

-- The type that an upstream gives, without its parameters.
abbrev pub media_type : Text → Text
media_type upstream_ct = elim (split_once b';' upstream_ct) [
  | none ↦ trim_space upstream_ct
  | some (ct, _) ↦ trim_space ct
]

abbrev pub plain_text : Text
plain_text = codes "text/plain; charset=utf-8"

-- DetectContentType
unfoldable pub detect_content_type : Text → Text → Text → Text
detect_content_type path upstream_ct body =
    let ct = media_type upstream_ct in
    let path = to_lower (normalize_path path) in
    if has_suffix path (codes ".info") || has_suffix path (codes "/@latest")
    then (if is_empty ct then codes "application/json" else ct)
    else if has_suffix path (codes ".mod")
    then plain_text
    else if has_suffix path (codes ".zip")
    then codes "application/zip"
    else if has_suffix path (codes "/@v/list")
    then plain_text
    else if contains path (codes "/sumdb/")
    then plain_text
    else if not (is_empty ct)
    then ct
    else if has_prefix (codes "{") (trim_space body)
    then codes "application/json"
    else plain_text
