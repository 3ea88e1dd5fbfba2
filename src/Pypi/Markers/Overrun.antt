-- ===== src/Pypi/Markers/Overrun.antt =====
-- markers.go: splitMarkerAnd on letters that grow when they are lowered. U+023A is two bytes of
-- UTF-8, and its lower case, U+2C65, is three.
use mirrorhub.Base.{
  ℕ, zero, suc, ◌+◌, ◌*◌, ◌<◌, ◌≡◌, refl, true, false, ltb, none, some, [], ◌∷◌, ◌++◌, arith,
  length, length-append,
}
use mirrorhub.Base.Text.{Text, codes, contains, has_prefix}
use mirrorhub.Base.Split.{index_of}
use mirrorhub.Pypi.Markers.{split_loop, split_marker_and}

abbrev pub capitals : ℕ → Text
capitals zero = []
capitals (suc n) = 0xC8 ∷ 0xBA ∷ capitals n

abbrev pub smalls : ℕ → Text
smalls zero = []
smalls (suc n) = 0xE2 ∷ 0xB1 ∷ 0xA5 ∷ smalls n

length-capitals : (n : ℕ) → length (capitals n) ≡ 2 * n
length-capitals zero = omega arith
length-capitals (suc n) = omega (arith, length-capitals n)

index_of-smalls :
    (n : ℕ) (t : Text) → index_of (codes " and ") (smalls n ++ (codes " and " ++ t)) ≡ some (3 * n)
unfolding index_of has_prefix
index_of-smalls zero t = ground arith
index_of-smalls (suc n) t = ground (arith, index_of-smalls n t)

split_loop-overrun :
    (lower : Text → Text) (f i : ℕ) (s : Text)
    → index_of (codes " and ") (lower s) ≡ some i
    → ltb (length s) (i + 5) ≡ true
    → split_loop lower (suc f) s ≡ none
unfolding split_loop
split_loop-overrun lower f i s found over = rw (found, split_loop) (rw over refl)

-- A marker of letters U+023A, ` and ` and a shorter rest, whose lowered copy has no ` or `, panics,
-- where strings.ToLower gives the letters' lower case.
pub split_marker_and-overrun :
    (lower : Text → Text) (n : ℕ) (rest low : Text)
    → lower (capitals n ++ (codes " and " ++ rest)) ≡ smalls n ++ (codes " and " ++ low)
    → contains (smalls n ++ (codes " and " ++ low)) (codes " or ") ≡ false
    → length rest < n
    → split_marker_and lower (capitals n ++ (codes " and " ++ rest)) ≡ none
unfolding split_marker_and
split_marker_and-overrun lower n rest low lowered plain short =
    let marker = capitals n ++ (codes " and " ++ rest) in
    let over : ltb (length marker) (3 * n + 5) ≡ true =
      ground (arith, length-append (capitals n) (codes " and " ++ rest), length-capitals n) in
    let found : index_of (codes " and ") (lower marker) ≡ some (3 * n) =
      rw lowered (index_of-smalls n low) in
    let plain' : contains (lower marker) (codes " or ") ≡ false = rw lowered plain in
    rw plain' (split_loop-overrun lower (length marker) (3 * n) marker found over)
