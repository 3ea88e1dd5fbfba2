-- ===== src/Handlers/HuggingFace.antt =====
-- backend/internal/handlers/huggingface/path.go: the paths of the Hub, and its ETags.
use mirrorhub.Base.{
  ℕ, Bool, true, false, not, ◌&&◌, ◌||◌, Option, none, some, [], ◌∷◌, ◌++◌, leb, ◌==◌,
  if◌then◌else◌, reverse,
}
use mirrorhub.Base.Text.{Text, codes, is_empty, has_prefix, contains, to_lower, trim_space, ◌===◌}
use mirrorhub.Base.Split.{index_of, trim_prefix}
use mirrorhub.Handlers.{normalize_path}
use mirrorhub.Handlers.Goproxy.{media_type}

-- IsAPIPath, and IsIndexPath
unfoldable pub is_api_path : Text → Bool
is_api_path path =
    let path = normalize_path path in
    has_prefix (codes "/api/models/") path
    || (has_prefix (codes "/api/datasets/") path
        || (path === codes "/api/models"
            || (path === codes "/api/datasets"
                || (has_prefix (codes "/api/resolve-cache/models/") path
                    || has_prefix (codes "/api/resolve-cache/datasets/") path))))

-- `strings.Index(path, part) >= 1`
abbrev pub found_behind : Option ℕ → Bool
found_behind none = false
found_behind (some i) = leb 1 i

-- IsPackagePath
unfoldable pub is_hub_package_path : Text → Bool
is_hub_package_path path =
    let path = normalize_path path in
    if has_prefix (codes "/spaces/") path
    then false
    else if contains path (codes "/resolve/")
    then found_behind (index_of (codes "/resolve/") path)
    else if contains path (codes "/raw/")
    then found_behind (index_of (codes "/raw/") path)
    else false

-- IsHuggingFacePath
unfoldable pub is_hugging_face_path : Text → Bool
is_hugging_face_path path =
    let path = normalize_path path in
    if has_prefix (codes "/spaces/") path || has_prefix (codes "/api/spaces/") path
    then false
    else if is_api_path path
    then true
    else is_hub_package_path path

unfoldable pub trim_left_quotes : Text → Text
trim_left_quotes [] = []
trim_left_quotes (c ∷ s) = let rest = trim_left_quotes s in if c == b'"' then rest else c ∷ s

-- NormalizeETag
unfoldable pub normalize_etag : Text → Text
normalize_etag etag =
    let etag = trim_prefix (trim_space etag) (codes "W/") in
    trim_space (reverse (trim_left_quotes (reverse (trim_left_quotes etag))))

-- BlobCacheKeyFromETag
unfoldable pub blob_cache_key_from_etag : Text → Text
blob_cache_key_from_etag etag =
    let etag = normalize_etag etag in if is_empty etag then [] else codes "hf:blob:" ++ etag

-- DetectContentType
unfoldable pub detect_hub_content_type : Text → Text → Text → Text
detect_hub_content_type path upstream_ct body =
    let ct = media_type upstream_ct in
    let path = to_lower (normalize_path path) in
    let trimmed = trim_space body in
    if has_prefix (codes "/api/") path
    then (if not (is_empty ct) && (contains ct (codes "json") || contains ct (codes "text"))
        then upstream_ct
        else codes "application/json")
    else if not (is_empty ct)
    then upstream_ct
    else if has_prefix (codes "{") trimmed || has_prefix (codes "[") trimmed
    then codes "application/json"
    else codes "application/octet-stream"
