-- ===== src/Handlers/Npm.antt =====
-- backend/internal/handlers/npm/path.go: the paths of npm's tarballs, and those that npm leaves to
-- the other registries.
use mirrorhub.Base.{
  ◌-◌, Bool, false, not, ◌||◌, List, [], ◌∷◌, ◌++◌, ltb, if◌then◌else◌, length, drop,
}
use mirrorhub.Base.Text.{Text, codes, has_prefix, contains, to_lower, ◌===◌}
use mirrorhub.Base.Split.{split_byte}
use mirrorhub.Handlers.{normalize_path, has_suffix, trim_left_slashes, trim_right_slashes}

-- IsTarballPath
unfoldable pub is_tarball_path : Text → Bool
is_tarball_path path =
    let path = normalize_path path in
    let lower = to_lower path in
    if not (contains path (codes "/-/"))
    then false
    else has_suffix lower (codes ".tgz") || has_suffix lower (codes ".tar.gz")

abbrev pub maven_extensions : List Text
maven_extensions =
    codes ".pom"
    ∷ codes ".jar"
    ∷ codes ".aar"
    ∷ codes ".war"
    ∷ codes ".module"
    ∷ codes ".zip"
    ∷ codes ".pom.sha1"
    ∷ codes ".jar.sha1"
    ∷ codes ".pom.md5"
    ∷ codes ".jar.md5"
    ∷ codes ".pom.sha256"
    ∷ codes ".jar.sha256"
    ∷ codes ".pom.sha512"
    ∷ codes ".jar.sha512"
    ∷ []

unfoldable pub ends_with_one : List Text → Text → Bool
ends_with_one [] s = false
ends_with_one (e ∷ es) s = has_suffix s e || ends_with_one es s

-- The last three parts, from the artifact on.
abbrev pub is_artifact_file : List Text → Bool
is_artifact_file (artifact ∷ version ∷ file ∷ []) =
    if not (has_prefix (artifact ++ codes "-") file)
    then false
    else ends_with_one maven_extensions (to_lower file)
is_artifact_file _ = false

-- looksLikeMavenArtifactPath
unfoldable pub looks_like_maven_artifact_path : Text → Bool
looks_like_maven_artifact_path path =
    let parts = split_byte b'/' (trim_right_slashes (trim_left_slashes (normalize_path path))) in
    if ltb (length parts) 4 then false else is_artifact_file (drop (length parts - 3) parts)

-- IsReservedProxyPath; one disjunct for each case of the switch.
unfoldable pub is_reserved_proxy_path : Text → Bool
is_reserved_proxy_path path =
    let path = normalize_path path in
    (path === codes "/" || path === codes "/health")
    || ((has_prefix (codes "/simple") path || has_prefix (codes "/packages") path)
        || (has_prefix (codes "/api/") path
            || ((has_prefix (codes "/v2/") path || path === codes "/v2")
                || ((contains path (codes "/@v/")
                      || (has_suffix path (codes "/@latest") || has_prefix (codes "/sumdb/") path))
                    || ((contains path (codes "/resolve/")
                          || (contains path (codes "/raw/")
                              || (has_prefix (codes "/datasets/") path
                                  || (has_prefix (codes "/api/models") path
                                      || (has_prefix (codes "/api/datasets") path
                                          || has_prefix (codes "/api/resolve-cache/") path)))))
                        || ((contains path (codes "/maven-metadata.xml")
                              || (has_prefix (codes "/maven2/") path || path === codes "/maven2"))
                            || looks_like_maven_artifact_path path))))))
