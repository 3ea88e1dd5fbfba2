-- ===== src/Config/Targets.antt =====
-- config.go: the target platforms of prefetching.
use mirrorhub.Base.{
  ◌≡◌, ◌≢◌, refl, Bool, true, false, ◌||◌, List, [], ◌∷◌, ◌++◌, ◌==◌, if◌then◌else◌, arith, inl,
  inr, Bool-cases, All, All-append, count, count_one_more, count_other, ◌≤◌, sym, subst,
}
use mirrorhub.Base.Text.{Text, codes, is_empty, trim_space, to_lower, text_dec, ◌===◌}

-- `strings.ReplaceAll(s, "_", "-")`
unfoldable pub dashes : Text → Text
dashes [] = []
dashes (c ∷ s) = (if c == b'_' then b'-' else c) ∷ dashes s

abbrev pub one_of : Text → List Text → Bool
one_of s [] = false
one_of s (x ∷ xs) = s === x || one_of s xs

abbrev linux_names : List Text
linux_names =
    []
    ∷ codes "linux"
    ∷ codes "linux-amd64"
    ∷ codes "linux-x86-64"
    ∷ codes "linux-x64"
    ∷ codes "manylinux"
    ∷ []

abbrev linux_arm_names : List Text
linux_arm_names =
    codes "linux-arm"
    ∷ codes "linux-aarch64"
    ∷ codes "linux-arm64"
    ∷ codes "aarch64"
    ∷ codes "arm64"
    ∷ codes "armv7"
    ∷ codes "armv7l"
    ∷ []

abbrev win_names : List Text
win_names = codes "win" ∷ codes "win32" ∷ codes "windows" ∷ codes "win-amd64" ∷ codes "win-x64" ∷ []

abbrev win_arm_names : List Text
win_arm_names =
    codes "win-arm" ∷ codes "win-arm64" ∷ codes "windows-arm" ∷ codes "windows-arm64" ∷ []

abbrev darwin_names : List Text
darwin_names =
    codes "macos"
    ∷ codes "mac"
    ∷ codes "darwin"
    ∷ codes "osx"
    ∷ codes "macosx"
    ∷ codes "darwin-amd64"
    ∷ codes "darwin-x64"
    ∷ []

abbrev darwin_arm_names : List Text
darwin_arm_names =
    codes "darwin-arm"
    ∷ codes "darwin-arm64"
    ∷ codes "macos-arm"
    ∷ codes "macos-arm64"
    ∷ codes "macosx-arm64"
    ∷ codes "osx-arm64"
    ∷ []

-- The switch of NormalizeTargetPlatform.
unfoldable pub canonical : Text → Text
canonical s =
    if one_of s linux_names
    then codes "linux"
    else if one_of s linux_arm_names
    then codes "linux-arm"
    else if one_of s win_names
    then codes "win32"
    else if one_of s win_arm_names
    then codes "win-arm"
    else if one_of s darwin_names
    then codes "darwin"
    else if one_of s darwin_arm_names
    then codes "darwin-arm"
    else []

unfoldable pub normalize_target_platform : Text → Text
unfolding canonical
normalize_target_platform s = canonical (dashes (to_lower (trim_space s)))

-- The loop of NormalizeTargetPlatforms, with what it has kept so far.
unfoldable pub add_target : Text → List Text → List Text
add_target raw out =
    let p = normalize_target_platform raw in
    if is_empty p then out else if one_of p out then out else out ++ p ∷ []

unfoldable pub targets_from : List Text → List Text → List Text
unfolding add_target
targets_from [] out = out
targets_from (raw ∷ raws) out = targets_from raws (add_target raw out)

abbrev or_linux : List Text → List Text
or_linux [] = codes "linux" ∷ []
or_linux (p ∷ ps) = p ∷ ps

unfoldable pub normalize_target_platforms : List Text → List Text
unfolding targets_from
normalize_target_platforms raws = or_linux (targets_from raws [])

-- The six names that a normalized platform has.
abbrev pub six : List Text
six =
    codes "linux"
    ∷ codes "linux-arm"
    ∷ codes "win32"
    ∷ codes "win-arm"
    ∷ codes "darwin"
    ∷ codes "darwin-arm"
    ∷ []

abbrev first_of : Bool → Bool → Bool → Bool → Bool → Bool → Text
first_of a b c d e f =
    if a
    then codes "linux"
    else if b
    then codes "linux-arm"
    else if c
    then codes "win32"
    else if d
    then codes "win-arm"
    else if e
    then codes "darwin"
    else if f
    then codes "darwin-arm"
    else []

abbrev IsSix : Text → Type 0
IsSix t = (is_empty t || one_of t six) ≡ true

first_of-IsSix : (a b c d e f : Bool) → IsSix (first_of a b c d e f)
unfolding text_dec
first_of-IsSix true b c d e f = refl
first_of-IsSix false true c d e f = refl
first_of-IsSix false false true d e f = refl
first_of-IsSix false false false true e f = refl
first_of-IsSix false false false false true f = refl
first_of-IsSix false false false false false true = refl
first_of-IsSix false false false false false false = refl

canonical-IsSix : (s : Text) → IsSix (canonical s)
unfolding canonical
canonical-IsSix s =
    first_of-IsSix (one_of s linux_names) (one_of s linux_arm_names) (one_of s win_names)
      (one_of s win_arm_names) (one_of s darwin_names) (one_of s darwin_arm_names)

-- What holds of the platforms kept so far.
pub record IsClean (out : List Text) : Type 0 where
  pub known : All (λ p. one_of p six ≡ true) out
  pub once : (t : Text) → count (λ p. p === t) out ≤ 1

not_among : (t : Text) (out : List Text) → one_of t out ≡ false → count (λ p. p === t) out ≡ 0
unfolding count
not_among t [] h = refl
not_among t (x ∷ xs) h = elim (text_dec x t) [
  | yes same ↦ absurd (ground (arith, sym same, h))
  | no other ↦ ground (arith, not_among t xs)
]

add-IsClean :
    (p : Text) (out : List Text)
    → IsSix p
    → is_empty p ≡ false
    → one_of p out ≡ false
    → IsClean out
    → IsClean (out ++ p ∷ [])
add-IsClean p out six_p named new h = record {
  known = All-append (λ t. one_of t six ≡ true) out (p ∷ []) h.known (ground arith, tt);
  once = λ t. elim (text_dec p t) [
    | yes same ↦
        subst (λ u. count (λ q. q === u) (out ++ p ∷ []) ≤ 1) same
          (omega (arith, count_one_more (λ q. q === p) out p, not_among p out new))
    | no other ↦ omega (arith, h.once t, count_other (λ q. q === t) out p (ground arith))
  ];
}

add_target-IsClean : (raw : Text) (out : List Text) → IsClean out → IsClean (add_target raw out)
unfolding add_target normalize_target_platform
add_target-IsClean raw out h =
    let p = normalize_target_platform raw in
    let known : IsSix p = canonical-IsSix (dashes (to_lower (trim_space raw))) in
    elim (Bool-cases (is_empty p)) [
      | inl e ↦ rw (e, add_target) h
      | inr e ↦ elim (Bool-cases (one_of p out)) [
        | inl f ↦ rw (e, f, add_target) h
        | inr f ↦ rw (e, f, add_target) (add-IsClean p out known e f h)
      ]
    ]

targets_from-IsClean : (raws out : List Text) → IsClean out → IsClean (targets_from raws out)
unfolding targets_from
targets_from-IsClean [] out h = h
targets_from-IsClean (raw ∷ raws) out h =
    targets_from-IsClean raws (add_target raw out) (add_target-IsClean raw out h)

or_linux_clean :
    (out : List Text)
    → IsClean out
    → (or_linux out ≢ [])
      × All (λ p. one_of p six ≡ true) (or_linux out)
      × ((t : Text) → count (λ p. p === t) (or_linux out) ≤ 1)
unfolding count text_dec
or_linux_clean [] h = (λ e. cc, (refl, tt), λ t. ground arith)
or_linux_clean (p ∷ ps) h = (λ e. cc, h.known, h.once)

nothing-IsClean : IsClean []
unfolding count
nothing-IsClean = record { known = tt; once = λ t. omega arith }

-- Whatever platforms are configured, the normalized list is not empty, has only the six known
-- names, and has none of them twice.
pub normalize_targets_clean :
    (raws : List Text)
    → let out = normalize_target_platforms raws in
      (out ≢ []) × All (λ p. one_of p six ≡ true) out × ((t : Text) → count (λ p. p === t) out ≤ 1)
unfolding normalize_target_platforms
normalize_targets_clean raws =
    or_linux_clean (targets_from raws []) (targets_from-IsClean raws [] nothing-IsClean)
