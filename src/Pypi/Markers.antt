-- ===== src/Pypi/Markers.antt =====
-- backend/internal/handlers/pypi/markers.go: the environment markers of a dependency, and which
-- of the target environments it is for. Texts are lists of bytes. `lower` is strings.ToLower on
-- all of Unicode; the other functions of strings and the regular expression are taken on ASCII.
-- `none` is a panic.
pub mod Splitting
pub mod Overrun
use mirrorhub.Base.{
  ℕ, zero, suc, ◌+◌, Bool, true, false, not, ◌&&◌, ◌||◌, Option, none, some, List, [], ◌∷◌, ◌++◌,
  ltb, ◌==◌, if◌then◌else◌, length, take, drop,
}
use mirrorhub.Base.Text.{Text, codes, is_empty, has_prefix, contains, to_lower, trim_space, ◌===◌}
use mirrorhub.Base.Split.{equal_fold, index_of}
use mirrorhub.Config.Targets.{normalize_target_platform, normalize_target_platforms}
use mirrorhub.Pypi.Versions.{cmp_version_strings}

pub record TargetEnv : Type 0 where
  pub python : List Text
  pub platforms : List Text
  pub platform : Text

-- SplitReqMarker
unfoldable pub split_req_marker : Text → Text × Text
split_req_marker raw =
    let raw = trim_space raw in
    elim (index_of (b';' ∷ []) raw) [
      | some i ↦ (trim_space (take i raw), trim_space (drop (i + 1) raw))
      | none ↦ (raw, [])
    ]

module _ (lower : Text → Text) where
  -- The loop of splitMarkerAnd, on fuel: each round passes five bytes at least. The index is one of
  -- the lowered copy, and a slice that ends or starts behind the marker's end panics.
  unfoldable pub split_loop : ℕ → Text → Option (List Text)
  split_loop zero rest = some (rest ∷ [])
  split_loop (suc fuel) rest = elim (index_of (codes " and ") (lower rest)) [
    | none ↦ some (rest ∷ [])
    | some idx ↦
        if ltb (length rest) (idx + 5)
        then none
        else (elim (split_loop fuel (drop (idx + 5) rest)) [
          | none ↦ none
          | some parts ↦ some (take idx rest ∷ parts)
        ])
  ]

  -- splitMarkerAnd
  unfoldable pub split_marker_and : Text → Option (List Text)
  split_marker_and marker =
      if contains (lower marker) (codes " or ")
      then some (marker ∷ [])
      else split_loop (suc (length marker)) marker

-- What the regular expression cmpRe captures: a key, an operator and a quoted text.
pub record Comparison : Type 0 where
  pub key : Text
  pub op : Text
  pub want : Text

-- `\s*`
unfoldable pub skip_white : Text → Text
skip_white [] = []
skip_white (c ∷ s) =
    let rest = skip_white s in
    if c == 32 || ((c == 9 || c == 10) || (c == 12 || c == 13)) then rest else c ∷ s

abbrev is_quote : ℕ → Bool
is_quote c = c == 39 || c == 34

-- `[^'"]+['"]`, of which the part before the quote is kept; none if there is no quote.
unfoldable pub up_to_quote : Text → Option Text
up_to_quote [] = none
up_to_quote (c ∷ s) =
    let rest : Option Text = elim (up_to_quote s) [ none ↦ none | some t ↦ some (c ∷ t) ] in
    if is_quote c then some [] else rest

abbrev quoted : Text → Option Text
quoted [] = none
quoted (q ∷ s) =
    if is_quote q
    then (elim (up_to_quote s) [ none ↦ none | some [] ↦ none | some (c ∷ t) ↦ some (c ∷ t) ])
    else none

-- The operators in the order of the expression, and what stands behind the first that fits.
unfoldable pub operator : List Text → Text → Option (Text × Text)
operator [] s = none
operator (op ∷ ops) s =
    let rest = operator ops s in if has_prefix op s then some (op, drop (length op) s) else rest

abbrev operators : List Text
operators = codes "==" ∷ codes "!=" ∷ codes "<=" ∷ codes ">=" ∷ codes "<" ∷ codes ">" ∷ []

-- The expression behind its first group.
unfoldable pub behind_key : Text → Text → Option Comparison
behind_key key s = elim (operator operators (skip_white s)) [
  | none ↦ none
  | some (op, s') ↦ (elim (quoted (skip_white s')) [
    | none ↦ none
    | some want ↦ some (record { key = key; op = op; want = want })
  ])
]

abbrev marker_keys : List Text
marker_keys =
    codes "python_version"
    ∷ codes "python_full_version"
    ∷ codes "sys_platform"
    ∷ codes "platform_system"
    ∷ []

-- The first key with which the expression fits here.
unfoldable pub match_here : List Text → Text → Option Comparison
match_here [] s = none
match_here (k ∷ ks) s =
    let rest = match_here ks s in
    if has_prefix k (to_lower s)
    then (elim (behind_key (take (length k) s) (drop (length k) s)) [
      | none ↦ rest
      | some c ↦ some c
    ])
    else rest

-- cmpRe.FindStringSubmatch: the leftmost place where it fits.
unfoldable pub find_comparison : Text → Option Comparison
find_comparison [] = none
find_comparison (c ∷ s) =
    let rest = find_comparison s in
    elim (match_here marker_keys (c ∷ s)) [ none ↦ rest | some m ↦ some m ]

unfoldable pub eval_version_cmp : Text → Text → Text → Bool
eval_version_cmp atom key have = elim (find_comparison atom) [
  | none ↦ true
  | some m ↦ if equal_fold m.key key then cmp_version_strings have m.op m.want else true
]

abbrev normalize_plat : Text → Text
normalize_plat s = let p = normalize_target_platform s in if is_empty p then codes "linux" else p

unfoldable pub marker_sys_platform : Text → Text
marker_sys_platform plat =
    let p = normalize_plat plat in
    if p === codes "win32" || p === codes "win-arm"
    then codes "win32"
    else if p === codes "darwin" || p === codes "darwin-arm"
    then codes "darwin"
    else codes "linux"

unfoldable pub marker_platform_system : Text → Text
marker_platform_system plat =
    let p = normalize_plat plat in
    if p === codes "win32" || p === codes "win-arm"
    then codes "Windows"
    else if p === codes "darwin" || p === codes "darwin-arm"
    then codes "Darwin"
    else codes "Linux"

-- Markers on extras are skipped, but for the empty extra.
unfoldable pub is_extra : Text → Bool
is_extra low =
    (contains low (codes "extra ")
      || (contains low (codes "extra==") || contains low (codes "extra ==")))
    && (not (contains low (codes "extra == ''")) && not (contains low (codes "extra == \"\"")))

abbrev default_versions : List Text
default_versions = codes "3.10" ∷ codes "3.11" ∷ codes "3.12" ∷ []

abbrev versions_or : List Text → List Text
versions_or [] = default_versions
versions_or (v ∷ vs) = v ∷ vs

abbrev platforms_of : TargetEnv → List Text
platforms_of env =
    normalize_target_platforms
      (if is_empty env.platform then env.platforms else env.platforms ++ env.platform ∷ [])

module _ (lower : Text → Text) where
  unfoldable pub eval_str_cmp : Text → Text → Text → Bool
  eval_str_cmp atom key have = elim (find_comparison atom) [
    | none ↦ true
    | some m ↦
        if equal_fold m.key key
        then if m.op === codes "=="
          then lower have === lower m.want
          else if m.op === codes "!="
          then not (lower have === lower m.want)
          else true
        else true
  ]

  unfoldable pub eval_marker_atom : Text → Text → Text → Bool
  eval_marker_atom atom py plat =
      let atom = trim_space atom in
      let low = lower atom in
      if contains low (codes "python_version")
      then eval_version_cmp atom (codes "python_version") py
      else if contains low (codes "python_full_version")
      then eval_version_cmp atom (codes "python_full_version") (py ++ codes ".0")
      else if contains low (codes "sys_platform")
      then eval_str_cmp atom (codes "sys_platform") (marker_sys_platform plat)
      else if contains low (codes "platform_system")
      then eval_str_cmp atom (codes "platform_system") (marker_platform_system plat)
      else true

  -- The loop of evalMarkerForPython.
  unfoldable pub eval_parts : List Text → Text → Text → Bool
  eval_parts [] py plat = true
  eval_parts (p ∷ ps) py plat =
      let rest = eval_parts ps py plat in
      let p = trim_space p in
      if is_empty p then rest else if eval_marker_atom p py plat then rest else false

  unfoldable pub eval_marker_for_python : Text → Text → Text → Option Bool
  eval_marker_for_python marker py plat = elim (split_marker_and lower marker) [
    | none ↦ none
    | some parts ↦ some (eval_parts parts py plat)
  ]

  -- The two loops of EvalMarker, left at the first combination that holds, or by a panic.
  unfoldable pub any_platform : Text → Text → List Text → Option Bool
  any_platform marker py [] = some false
  any_platform marker py (plat ∷ plats) = elim (eval_marker_for_python marker py plat) [
    | none ↦ none
    | some true ↦ some true
    | some false ↦ any_platform marker py plats
  ]

  unfoldable pub any_python : Text → List Text → List Text → Option Bool
  any_python marker [] plats = some false
  any_python marker (py ∷ versions) plats = elim (any_platform marker py plats) [
    | none ↦ none
    | some true ↦ some true
    | some false ↦ any_python marker versions plats
  ]

  unfoldable pub eval_marker : Text → TargetEnv → Option Bool
  eval_marker marker env =
      let marker = trim_space marker in
      if is_empty marker
      then some true
      else if is_extra (lower marker)
      then some false
      else any_python marker (versions_or env.python) (platforms_of env)
