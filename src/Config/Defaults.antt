-- ===== src/Config/Defaults.antt =====
-- config.go: the platforms that applyDefaults fills in, with the mirrors of a first start, and the
-- old setting of one target platform that is still read.
use mirrorhub.Base.{
  ℕ, ◌≡◌, refl, subst, inl, inr, ◌∙◌, ap, Bool, ◌||◌, ◌==◌, if◌then◌else◌, Option, none, some, List,
  [], ◌∷◌, ◌++◌, arith, for_each, Bool-cases,
}
use mirrorhub.Base.Text.{Text, codes, is_empty, trim_space, text_dec, ◌===◌}
use mirrorhub.Base.Assoc.{Assoc, lookup, put, lookup-put}
use mirrorhub.Base.Split.{push_first}
use mirrorhub.Config.Targets.{one_of, normalize_target_platforms}
use mirrorhub.Config.Platforms.{PlatformConfig, seed, normalize_platform, normalize_platform_twice}

unfoldable pub default_platform_seed : Text → PlatformConfig
default_platform_seed id =
    if id === codes "pypi"
    then seed (codes "https://mirrors.aliyun.com/pypi") (codes "https://mirrors.aliyun.com/pypi")
        (codes "https://files.pythonhosted.org")
    else if id === codes "npm"
    then seed (codes "https://registry.npmmirror.com") (codes "https://registry.npmmirror.com") []
    else if id === codes "docker"
    then seed (codes "https://docker.m.daocloud.io") (codes "https://docker.m.daocloud.io") []
    else if id === codes "goproxy"
    then seed (codes "https://goproxy.cn") (codes "https://goproxy.cn") (codes "https://goproxy.cn")
    else if id === codes "huggingface"
    then seed (codes "https://hf-mirror.com") (codes "https://hf-mirror.com") []
    else if id === codes "maven"
    then seed (codes "https://maven.aliyun.com/repository/central")
        (codes "https://maven.aliyun.com/repository/central") []
    else seed [] [] []

abbrev pub platform_ids : List Text
platform_ids =
    codes "pypi"
    ∷ codes "npm"
    ∷ codes "docker"
    ∷ codes "goproxy"
    ∷ codes "huggingface"
    ∷ codes "maven"
    ∷ []

abbrev pub or_seed : Text → Option PlatformConfig → PlatformConfig
or_seed id none = default_platform_seed id
or_seed id (some p) = p

-- One round of the loop over the platforms.
abbrev pub fill_platform : Text → Assoc PlatformConfig → Assoc PlatformConfig
fill_platform id ps = put id (normalize_platform id (or_seed id (lookup id ps))) ps

unfoldable pub fill_platforms : Assoc PlatformConfig → Assoc PlatformConfig
fill_platforms ps = for_each fill_platform platform_ids ps

abbrev is_separator : ℕ → Bool
is_separator c = c == b',' || c == b';' || c == b'|' || c == 10

unfoldable pub split_fields : Text → List Text
split_fields [] = [] ∷ []
split_fields (c ∷ s) =
    let rest = split_fields s in if is_separator c then [] ∷ rest else push_first c rest

abbrev trimmed : List Text → List Text
trimmed [] = []
trimmed (p ∷ ps) =
    let rest = trimmed ps in let t = trim_space p in if is_empty t then rest else t ∷ rest

-- splitPlatformField
unfoldable pub split_platform_field : Text → List Text
split_platform_field s = trimmed (split_fields (trim_space s))

-- TargetPlatformList, of both settings.
unfoldable pub target_platform_list : List Text → Text → List Text
target_platform_list platforms platform =
    normalize_target_platforms (platforms ++ split_platform_field platform)

abbrev filled : Text → Assoc PlatformConfig → Option PlatformConfig
filled id ps = some (normalize_platform id (or_seed id (lookup id ps)))

lookup-fill_platform :
    (j id : Text) (ps : Assoc PlatformConfig)
    → lookup id (fill_platform j ps) ≡ (if id === j then filled id ps else lookup id ps)
lookup-fill_platform j id ps =
    let stored = normalize_platform j (or_seed j (lookup j ps)) in
    elim (text_dec j id) [
      | yes e ↦
          subst
            (λ (k : Text).
              lookup k (fill_platform j ps) ≡ (if k === j then filled k ps else lookup k ps))
            e (ground (arith, lookup-put j j stored ps))
      | no n ↦ ground (arith, lookup-put j id stored ps)
    ]

filled-fill_platform :
    (j id : Text) (ps : Assoc PlatformConfig) → filled id (fill_platform j ps) ≡ filled id ps
filled-fill_platform j id ps =
    let twice = normalize_platform_twice id (or_seed id (lookup id ps)) in
    elim (Bool-cases (id === j)) [
      | inl same ↦
          ap (λ (o : Option PlatformConfig). some (normalize_platform id (or_seed id o)))
            (lookup-fill_platform j id ps
              ∙ ap (λ (b : Bool). if b then filled id ps else lookup id ps) same)
          ∙ ap (λ (p : PlatformConfig). some p) twice
      | inr other ↦
          ap (λ (o : Option PlatformConfig). some (normalize_platform id (or_seed id o)))
            (lookup-fill_platform j id ps
              ∙ ap (λ (b : Bool). if b then filled id ps else lookup id ps) other)
    ]

fill_loop :
    (ids : List Text) (id : Text) (ps : Assoc PlatformConfig)
    → lookup id (for_each fill_platform ids ps)
      ≡ (if one_of id ids then filled id ps else lookup id ps)
unfolding for_each
fill_loop [] id ps = refl
fill_loop (j ∷ ids) id ps = ground (
  arith,
  fill_loop ids id (fill_platform j ps),
  filled-fill_platform j id ps,
  lookup-fill_platform j id ps,
)

-- After the defaults are applied, each of the six platforms has its settings as they were, or else
-- those of a first start, in their normalized form, and every other platform is as it was.
pub fill_platforms_lem :
    (id : Text) (ps : Assoc PlatformConfig)
    → lookup id (fill_platforms ps) ≡ (
        if one_of id platform_ids
        then some (normalize_platform id (or_seed id (lookup id ps)))
        else lookup id ps)
unfolding fill_platforms
fill_platforms_lem id ps = fill_loop platform_ids id ps
