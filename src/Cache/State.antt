-- ===== src/Cache/State.antt =====
-- cache.go: the entries, the manager's state, and what every method does to one entry. The files
-- under the cache's directory are a map from paths to contents; bbolt and JSON give back the entries
-- that were put. Other failures of the operating system are not modelled.
use mirrorhub.Base.{
  ℕ, ◌-◌, ◌*◌, Bool, true, false, not, ◌&&◌, ◌||◌, Option, none, some, [], ◌∷◌, ◌++◌, ltb, leb,
  ◌==◌, if◌then◌else◌, length, take, ℤ, pos, negsuc,
}
use mirrorhub.Base.Text.{Text, codes, is_empty, trim_space, to_lower, ◌===◌}
use mirrorhub.Base.Assoc.{Assoc, lookup, put, without, tally}
use mirrorhub.Cache.Counters.{HitCounters, note_miss}

pub record Entry : Type 0 where
  pub key : Text
  pub file_path : Text
  pub content_type : Text
  pub size : ℕ
  pub created_at : ℕ
  pub last_access : ℕ
  pub ttl_seconds : ℤ
  pub source_url : Text
  pub kind : Text
  pub digest : Text
  pub etag : Text
  pub upstream_etag : Text
  pub repo_commit : Text

pub record Meta : Type 0 where
  pub source_url : Text
  pub kind : Text
  pub digest : Text
  pub upstream_etag : Text
  pub repo_commit : Text
  pub digest_trusted : Bool

pub record ChunkMark : Type 0 where
  pub url : Text
  pub total_size : ℕ
  pub start : ℕ
  pub stop : ℕ
  pub updated_at : ℕ

-- `writers` is the count of the WaitGroup writeWG.
pub record Manager : Type 0 where
  pub dir : Text
  pub max_size : ℕ
  pub entries : Assoc Entry
  pub chunks : Assoc ChunkMark
  pub files : Assoc Text
  pub hit : HitCounters
  pub dirty : Bool
  pub clearing : Bool
  pub writers : ℕ

-- The code of other packages that the cache calls: platid.Of, the hashes of crypto with their
-- encodings (safe_key is 32 hexadecimal digits of SHA-256), fmt.Sprintf for a weak ETag and for the
-- name of a staging file, and the floating-point target of an eviction.
pub record Env : Type 0 where
  pub platform_of : Text → Text → Text → Text
  pub safe_key : Text → Text
  pub sha256_hex : Text → Text
  pub sha256_base64 : Text → Text
  pub sha512_base64 : Text → Text
  pub weak_etag : ℕ → ℕ → Text
  pub staging_suffix : ℕ → Text
  pub eviction_target : ℕ → ℕ → ℕ

abbrev pub access_interval : ℕ
access_interval = 30 * 1000000000

abbrev pub is_package : Entry → Bool
is_package e = e.kind === codes "package"

-- `strings.TrimSpace(e.SourceURL) == "" || strings.TrimSpace(e.Kind) == ""`
abbrev pub is_incomplete : Entry → Bool
is_incomplete e = is_empty (trim_space e.source_url) || is_empty (trim_space e.kind)

-- `ttl > 0 && since > ttl * time.Second`
abbrev pub ttl_over : ℤ → ℕ → Bool
ttl_over (pos n) age = ltb 0 n && ltb (n * 1000000000) age
ttl_over (negsuc n) age = false

abbrev pub is_expired : ℕ → Entry → Bool
is_expired now e = not (is_package e) && ttl_over e.ttl_seconds (now - e.created_at)

abbrev pub total_size : Assoc Entry → ℕ
total_size = tally Entry.size

-- putMetaLocked
unfoldable pub put_meta : Entry → Manager → Manager
put_meta e m = record m { entries = put e.key e m.entries }

-- deleteLocked
unfoldable pub delete_locked : Text → Manager → Manager
delete_locked key m =
    let files : Assoc Text = elim (lookup key m.entries) [
      | none ↦ m.files
      | some e ↦ if is_empty e.file_path then m.files else without e.file_path m.files
    ] in
    record m { entries = without key m.entries; files = files }

abbrev is_name_char : ℕ → Bool
is_name_char c =
    (leb b'a' c && leb c b'z') || ((leb b'0' c && leb c b'9') || (c == b'_' || c == b'-'))

abbrev is_name : Text → Bool
is_name [] = true
is_name (c ∷ s) = is_name_char c && is_name s

-- sanitizePlatformDir
unfoldable pub sanitize_platform_dir : Text → Text
sanitize_platform_dir p =
    let p = to_lower (trim_space p) in
    if is_empty p then codes "other" else if is_name p then p else codes "other"

abbrev slash : Text
slash = codes "/"

module _ (env : Env) where
  unfoldable pub object_key_seg : Text → Text
  object_key_seg key =
      let sk = env.safe_key key in if ltb (length sk) 2 then sk ++ codes "__" else sk

  -- filePath: `{dir}/objects/{platform}/{sk[:2]}/{sk}`
  unfoldable pub file_path : Text → Text → Text → Text
  file_path dir key platform =
      let sk = object_key_seg key in
      dir
      ++ (codes "/objects/"
          ++ (sanitize_platform_dir platform ++ (slash ++ (take 2 sk ++ (slash ++ sk)))))

  -- HitPlatform
  unfoldable pub hit_platform : Text → Text → Option Entry → Text
  hit_platform hint key entry =
      let p = trim_space hint in
      if not (is_empty p) then p else elim entry [
        | none ↦ env.platform_of key [] []
        | some e ↦ env.platform_of e.key e.source_url e.kind
      ]

  abbrev pub missed : Text → Text → Option Entry → Manager → Manager
  missed hint key entry m = record m {
    hit = note_miss (hit_platform hint key entry) m.hit;
    dirty = true;
  }
