-- ===== src/Config/Platforms.antt =====
-- config.go: NormalizePlatform, which fills the empty settings of a platform. Whether a platform is
-- enabled and its token are left alone, and are left out.
use mirrorhub.Base.{
  ℕ, ◌*◌, ◌≡◌, ap, ◌∙◌, Bool, [], ◌∷◌, ◌==◌, if◌then◌else◌, arith, ℤ, pos, negsuc, reverse,
}
use mirrorhub.Base.Text.{Text, codes, is_empty, trim_space, ◌===◌}

-- Sizes and counts are positive once they are normalized.
pub record DownloadConfig : Type 0 where
  pub concurrency : ℤ
  pub chunk_size : ℤ
  pub min_size : ℤ

pub record PlatformConfig : Type 0 where
  pub upstream : Text
  pub file_upstream : Text
  pub metadata_upstream : Text
  pub download : DownloadConfig

abbrev pub default_download : DownloadConfig
default_download = record {
  concurrency = pos 16;
  chunk_size = pos (5 * 1024 * 1024);
  min_size = pos (100 * 1024);
}

abbrev pub seed : Text → Text → Text → PlatformConfig
seed up file metadata = record {
  upstream = up;
  file_upstream = file;
  metadata_upstream = metadata;
  download = default_download;
}

unfoldable pub official_platform_seed : Text → PlatformConfig
official_platform_seed id =
    if id === codes "pypi"
    then seed (codes "https://pypi.org") (codes "https://pypi.org")
        (codes "https://files.pythonhosted.org")
    else if id === codes "npm"
    then seed (codes "https://registry.npmjs.org") (codes "https://registry.npmjs.org") []
    else if id === codes "docker"
    then seed (codes "https://registry-1.docker.io") (codes "https://registry-1.docker.io") []
    else if id === codes "goproxy"
    then seed (codes "https://proxy.golang.org") (codes "https://proxy.golang.org")
        (codes "https://sum.golang.org")
    else if id === codes "huggingface"
    then seed (codes "https://huggingface.co") (codes "https://huggingface.co") []
    else if id === codes "maven"
    then seed (codes "https://repo1.maven.org/maven2") (codes "https://repo1.maven.org/maven2") []
    else seed [] [] []

abbrev pub is_blank : Text → Bool
is_blank s = is_empty (trim_space s)

abbrev drop_slashes : Text → Text
drop_slashes [] = []
drop_slashes (c ∷ s) = let rest = drop_slashes s in if c == b'/' then rest else c ∷ s

-- `strings.TrimRight(s, "/")`
unfoldable pub trim_slashes : Text → Text
trim_slashes s = reverse (drop_slashes (reverse s))

abbrev pub or_text : Text → Text → Text
or_text s d = if is_blank s then d else s

abbrev pub or_positive : ℤ → ℤ → ℤ
or_positive (pos n) d = if n == 0 then d else pos n
or_positive (negsuc n) d = d

abbrev pub normalize_download : DownloadConfig → DownloadConfig
normalize_download d = record {
  concurrency = or_positive d.concurrency default_download.concurrency;
  chunk_size = or_positive d.chunk_size default_download.chunk_size;
  min_size = or_positive d.min_size default_download.min_size;
}

-- The metadata upstream, of a platform whose upstream is `up`.
unfoldable pub metadata_or : Text → Text → Text → Text
metadata_or id up metadata =
    let official = official_platform_seed id in
    if id === codes "pypi"
    then or_text metadata official.metadata_upstream
    else if id === codes "goproxy"
    then or_text metadata (
        if trim_slashes (trim_space up) === trim_slashes official.upstream
        then official.metadata_upstream
        else up)
    else metadata

-- NormalizePlatform
unfoldable pub normalize_platform : Text → PlatformConfig → PlatformConfig
normalize_platform id p =
    let up = or_text p.upstream (official_platform_seed id).upstream in
    record {
      upstream = up;
      file_upstream = or_text p.file_upstream up;
      metadata_upstream = metadata_or id up p.metadata_upstream;
      download = normalize_download p.download;
    }

or_text_twice : (s d : Text) → or_text (or_text s d) d ≡ or_text s d
or_text_twice s d = ground arith

or_positive_twice :
    (z : ℤ) (n : ℕ) → or_positive (or_positive z (pos n)) (pos n) ≡ or_positive z (pos n)
or_positive_twice (pos m) n = ground arith
or_positive_twice (negsuc m) n = ground arith

metadata_or_twice :
    (id up metadata : Text)
    → metadata_or id up (metadata_or id up metadata) ≡ metadata_or id up metadata
unfolding metadata_or
metadata_or_twice id up metadata = ground arith

-- Normalizing the settings of a platform twice is normalizing them once: what is filled in, the
-- official sources included, is left alone afterwards.
pub normalize_platform_twice :
    (id : Text) (p : PlatformConfig)
    → normalize_platform id (normalize_platform id p) ≡ normalize_platform id p
unfolding normalize_platform
normalize_platform_twice id p =
    let off = (official_platform_seed id).upstream in
    let up = or_text p.upstream off in
    let metadata = metadata_or id up p.metadata_upstream in
    let same_up : or_text up off ≡ up = or_text_twice p.upstream off in
    let same_file =
      ap (or_text (or_text p.file_upstream up)) same_up ∙ or_text_twice p.file_upstream up in
    let same_metadata =
      ap (λ (u : Text). metadata_or id u metadata) same_up
      ∙ metadata_or_twice id up p.metadata_upstream in
    λ i. record {
      upstream = same_up i;
      file_upstream = same_file i;
      metadata_upstream = same_metadata i;
      download = record {
        concurrency = or_positive_twice p.download.concurrency 16 i;
        chunk_size = or_positive_twice p.download.chunk_size (5 * 1024 * 1024) i;
        min_size = or_positive_twice p.download.min_size (100 * 1024) i;
      };
    }
