-- ===== src/Examples/Markers.antt =====
-- Runs of markers.go.
use mirrorhub.Base.{
  ◌≡◌, refl, true, ◌&&◌, ◌==◌, if◌then◌else◌, none, some, List, [], ◌∷◌, ◌++◌, arith, All,
}
use mirrorhub.Base.Text.{Text, codes, to_lower, contains, has_prefix, text_dec}
use mirrorhub.Base.Split.{index_of, split_byte}
use mirrorhub.Base.Numbers.{digits_value}
use mirrorhub.Pypi.Versions.{
  Cmp, holds, cmp_version_strings, parse_short_ver, cmp_parts, atoi_or_zero,
}
use mirrorhub.Pypi.Versions.Order.{Means, cmp_version_strings_lem}
use mirrorhub.Pypi.Markers.{split_marker_and}
use mirrorhub.Pypi.Markers.Splitting.{join_and, split_marker_and_lem}
use mirrorhub.Pypi.Markers.Overrun.{capitals, split_marker_and-overrun}

cmp_version_strings_lem_example :
    (c : Cmp) × Means (parse_short_ver (codes "3.10")) (parse_short_ver (codes "3.9")) c
    × ((op : Text) → cmp_version_strings (codes "3.10") op (codes "3.9") ≡ holds op c)
cmp_version_strings_lem_example = cmp_version_strings_lem (codes "3.10") (codes "3.9")

abbrev marker : Text
marker = codes "python_version < '3.11' and sys_platform == 'win32'"

split_marker_and_lem_example :
    (parts : List Text) × (split_marker_and to_lower marker ≡ some parts)
    × (to_lower (join_and parts) ≡ to_lower marker)
    × All (λ p. index_of (codes " and ") (to_lower p) ≡ none) parts
unfolding contains has_prefix to_lower
split_marker_and_lem_example = split_marker_and_lem to_lower (λ s h. refl) marker (omega arith) refl

-- ASCII letters, and the letter U+023A.
to_lower_023A : Text → Text
to_lower_023A [] = []
to_lower_023A (c ∷ []) = to_lower (c ∷ [])
to_lower_023A (c ∷ d ∷ s) =
    let rest = to_lower_023A s in
    let next = to_lower_023A (d ∷ s) in
    if c == 0xC8 && d == 0xBA then 0xE2 ∷ 0xB1 ∷ 0xA5 ∷ rest else to_lower (c ∷ []) ++ next

split_marker_and-overrun_example :
    split_marker_and to_lower_023A (capitals 2 ++ (codes " and " ++ codes "A")) ≡ none
unfolding to_lower_023A to_lower contains has_prefix
split_marker_and-overrun_example =
    split_marker_and-overrun to_lower_023A 2 (codes "A") (codes "a") refl refl (omega arith)

newer : cmp_version_strings (codes "3.10") (codes ">=") (codes "3.9") ≡ true
unfolding cmp_version_strings parse_short_ver text_dec cmp_parts split_byte atoi_or_zero
    digits_value
newer = refl
