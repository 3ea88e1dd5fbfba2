-- ===== src/Cache/Writing.antt =====
-- cache.go: Put, Delete, Clear, and the leases of writers. Put is three steps, since it moves the
-- file outside the lock: the lease with all checks and the move to a staging name, the locked part,
-- and the end of the lease.
pub mod Clearing
pub mod Stored
use mirrorhub.Base.{
  ℕ, suc, ◌+◌, ◌-◌, Bool, true, false, not, ◌&&◌, ◌||◌, Option, none, some, List, [], ◌∷◌, ◌++◌,
  ltb, leb, ◌==◌, if◌then◌else◌, length, for_each, keep, ℤ,
}
use mirrorhub.Base.Text.{Text, codes, is_empty, trim_space, to_lower, has_prefix, ◌===◌}
use mirrorhub.Base.Split.{equal_fold, trim_prefix}
use mirrorhub.Base.Assoc.{Assoc, lookup, put, without, keys}
use mirrorhub.Cache.Counters.{no_hits}
use mirrorhub.Cache.State.{
  Entry, Meta, Manager, Env, put_meta, delete_locked, file_path, is_incomplete,
}
use mirrorhub.Cache.Evicting.{evict}

pub data PutError : Type 0 where
  incomplete_meta cache_clearing digest_mismatch zero_size no_file : PutError

pub data PutResult {ℓ} (A : Type ℓ) : Type ℓ where
  ok : A → PutResult A
  fail : PutError → PutResult A

-- HoldWrite and ReleaseWrite
unfoldable pub hold_write : Manager → Option Manager
hold_write m = if m.clearing then none else some (record m { writers = m.writers + 1 })

unfoldable pub release_write : Manager → Manager
release_write m = record m { writers = m.writers - 1 }

abbrev is_hex_digit : ℕ → Bool
is_hex_digit c = (leb b'0' c && leb c b'9') || (leb b'a' c && leb c b'f')

abbrev all_hex : Text → Bool
all_hex [] = true
all_hex (c ∷ s) = is_hex_digit c && all_hex s

-- trustedDigestHex; the empty text where it refuses.
unfoldable pub trusted_digest_hex : Text → Text
trusted_digest_hex digest =
    let d = to_lower (trim_space digest) in
    if length d == 64 then (if all_hex d then d else []) else []

module _ (env : Env) where
  -- verifyAndNormalizeDigest of a file's contents; none is a mismatch.
  unfoldable pub verify_digest : Text → Text → Option Text
  verify_digest content expected =
      let exp = trim_space expected in
      let sum = env.sha256_hex content in
      if is_empty exp
      then some []
      else if has_prefix (codes "sha512-") exp
      then (if env.sha512_base64 content === trim_prefix exp (codes "sha512-")
          then some sum
          else none)
      else if has_prefix (codes "sha256-") exp
      then (if env.sha256_base64 content === trim_prefix exp (codes "sha256-")
          then some sum
          else none)
      else if equal_fold sum exp
      then some (to_lower sum)
      else none

  -- The digest that Put stores.
  unfoldable pub digest_of : Text → Meta → Option Text
  unfolding verify_digest
  digest_of content info =
      let d = trusted_digest_hex info.digest in
      if is_empty (trim_space info.digest)
      then some []
      else if info.digest_trusted && not (is_empty d)
      then some d
      else verify_digest content info.digest

  -- What Put has when it takes the lock.
  pub record Staged : Type 0 where
    pub key : Text
    pub content_type : Text
    pub ttl : ℤ
    pub info : Meta
    pub digest : Text
    pub staging : Text
    pub target : Text

  abbrev pub staged_file : Text → Text → Text → Text → Manager → Manager
  staged_file src staging content key m = record m {
    files = put staging content (without src m.files);
  }

  abbrev pub lacks_meta : Meta → Bool
  lacks_meta info = is_empty (trim_space info.source_url) || is_empty (trim_space info.kind)

  -- Put up to the lock, with a lease where it goes on. The file that it was given is removed on the
  -- paths on which the code removes it.
  unfoldable pub put_stage :
      Text → Text → Text → ℤ → Meta → ℕ → Manager → Manager × PutResult Staged
  unfolding hold_write digest_of
  put_stage key src content_type ttl info now m =
      if lacks_meta info then (m, fail incomplete_meta) else elim (hold_write m) [
        | none ↦ (record m { files = without src m.files }, fail cache_clearing)
        | some m' ↦ elim (lookup src m'.files) [
          | none ↦ (m, fail no_file)
          | some content ↦ elim (digest_of content info) [
            | none ↦ (record m { files = without src m.files }, fail digest_mismatch)
            | some digest ↦
                let target =
                  file_path env m.dir key (env.platform_of key info.source_url info.kind) in
                let staging = target ++ env.staging_suffix now in
                let kind = trim_space info.kind in
                if kind === codes "package" && length content == 0
                then (record m { files = without src m.files }, fail zero_size)
                else (
                  staged_file src staging content key m',
                  ok (record {
                    key = key;
                    content_type = content_type;
                    ttl = ttl;
                    info = info;
                    digest = digest;
                    staging = staging;
                    target = target;
                  }),
                )
          ]
        ]
      ]

  abbrev pub etag_of : Text → ℕ → ℕ → Text
  etag_of digest size now =
      if is_empty digest then env.weak_etag size now else codes "\"" ++ (digest ++ codes "\"")

  abbrev pub new_entry : Staged → ℕ → ℕ → Entry
  new_entry p size now = record {
    key = p.key;
    file_path = p.target;
    content_type = p.content_type;
    size = size;
    created_at = now;
    last_access = now;
    ttl_seconds = p.ttl;
    source_url = p.info.source_url;
    kind = trim_space p.info.kind;
    digest = p.digest;
    etag = etag_of p.digest size now;
    upstream_etag = p.info.upstream_etag;
    repo_commit = p.info.repo_commit;
  }

  -- The file that is renamed over the target, and its entry in the index.
  unfoldable pub committed : Staged → Text → ℕ → Manager → Manager
  committed p content now m =
      put_meta (new_entry p (length content) now)
        (record m { files = put p.target content (without p.staging m.files) })

  -- The locked part of Put.
  unfoldable pub put_commit : Staged → ℕ → Manager → Manager × PutResult Entry
  put_commit p now m =
      if m.clearing
      then (record m { files = without p.staging m.files }, fail cache_clearing)
      else elim (lookup p.staging m.files) [
        | none ↦ (record m { files = without p.target m.files }, fail no_file)
        | some content ↦ (
          evict env (p.key ∷ []) (committed p content now m),
          ok (new_entry p (length content) now),
        )
      ]

  -- Put, when nothing else runs in between.
  unfoldable pub put_file : Text → Text → Text → ℤ → Meta → ℕ → Manager → Manager × PutResult Entry
  unfolding release_write
  put_file key src content_type ttl info now m =
      let (m', staged) = put_stage key src content_type ttl info now m in
      elim staged [
        | fail e ↦ (m', fail e)
        | ok p ↦ let (m'', r) = put_commit p now m' in (release_write m'', r)
      ]

-- Clear, in its four steps. The second happens once no writer is left.
unfoldable pub clear_begin : Manager → Manager
clear_begin m = record m { clearing = true }

unfoldable pub clear_wipe : Manager → Manager
clear_wipe m = record (for_each delete_locked (keys m.entries) m) {
  chunks = [];
  hit = no_hits;
  dirty = true;
}

-- PurgeTempFiles. `tmp_` files stand in the cache's directory itself.
abbrev is_tmp : Text → Text → Bool
is_tmp dir path = has_prefix (dir ++ codes "/tmp_") path

abbrev without_tmp : Text → Assoc Text → Assoc Text
without_tmp dir files = keep (λ f. not (is_tmp dir f.0)) files

unfoldable pub purge_temp_files : Manager → Manager × ℕ
purge_temp_files m =
    let files = without_tmp m.dir m.files in
    (record m { files = files }, length m.files - length files)

unfoldable pub clear_end : Manager → Manager
clear_end m = record m { clearing = false }

-- TempPath
unfoldable pub temp_path : Env → Text → Manager → Text
temp_path env key m = m.dir ++ (codes "/tmp_" ++ (env.safe_key key ++ codes ".part"))
