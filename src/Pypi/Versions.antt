-- ===== src/Pypi/Versions.antt =====
-- backend/internal/handlers/pypi/markers.go: the comparison of short version numbers, and the Python versions that prefetching
-- is for. Texts are ASCII.
pub mod Order
use mirrorhub.Base.{
  ℕ, zero, suc, ◌+◌, ◌-◌, ◌*◌, ◌≤◌, ◌<◌, ◌≡◌, ◌≢◌, refl, sym, ap, ◌∙◌, ◌↔◌, ◌⊎◌, inl, inr, Bool,
  true, false, not, ◌&&◌, ◌||◌, ◌^◌, Option, none, some, List, [], ◌∷◌, ◌++◌, arith, ltb, leb, ◌==◌,
  if◌then◌else◌, ℤ, pos, negsuc, map, compare, Ordering, min,
}
use mirrorhub.Base.Text.{Text, codes, is_empty, trim_space, format_uint, ◌===◌}
use mirrorhub.Base.Split.{split_byte}
use mirrorhub.Base.Numbers.{max_int, unsigned}

-- -n, where an int64 holds it, and else the smallest one.
abbrev negative : ℕ → ℤ
negative zero = pos zero
negative (suc n) = negsuc (min n max_int)

abbrev signed : Text → Option ℤ
signed [] = none
signed (c ∷ s) =
    if c == b'+'
    then (elim (unsigned s) [ none ↦ none | some n ↦ some (pos (min n max_int)) ])
    else if c == b'-'
    then (elim (unsigned s) [ none ↦ none | some n ↦ some (negative n) ])
    else (elim (unsigned (c ∷ s)) [ none ↦ none | some n ↦ some (pos (min n max_int)) ])

-- `n, _ := strconv.Atoi(p)`: 0 for what is no number, the nearest int64 for one out of range.
unfoldable pub atoi_or_zero : Text → ℤ
atoi_or_zero p = elim (signed p) [ none ↦ pos 0 | some n ↦ n ]

-- parseShortVer
unfoldable pub parse_short_ver : Text → List ℤ
parse_short_ver s = map atoi_or_zero (split_byte b'.' s)

pub data Cmp : Type 0 where
  less same more : Cmp

abbrev pub cmp_nat : ℕ → ℕ → Cmp
cmp_nat a b = elim (compare a b) [ Ordering.lt ↦ less | Ordering.eq ↦ same | Ordering.gt ↦ more ]

abbrev pub cmp_int : ℤ → ℤ → Cmp
cmp_int (pos a) (pos b) = cmp_nat a b
cmp_int (pos a) (negsuc b) = more
cmp_int (negsuc a) (pos b) = less
cmp_int (negsuc a) (negsuc b) = cmp_nat b a

abbrev pub or_else : Cmp → Cmp → Cmp
or_else less c = less
or_else same c = c
or_else more c = more

-- The loop of cmpVersionStrings; a version that is over goes on with zeros.
unfoldable pub cmp_parts : List ℤ → List ℤ → Cmp
cmp_parts [] [] = same
cmp_parts [] (b ∷ bs) = or_else (cmp_int (pos 0) b) (cmp_parts [] bs)
cmp_parts (a ∷ as') [] = or_else (cmp_int a (pos 0)) (cmp_parts as' [])
cmp_parts (a ∷ as') (b ∷ bs) = or_else (cmp_int a b) (cmp_parts as' bs)

abbrev pub is_less : Cmp → Bool
is_less less = true
is_less _ = false

abbrev pub is_same : Cmp → Bool
is_same same = true
is_same _ = false

abbrev pub is_more : Cmp → Bool
is_more more = true
is_more _ = false

-- The switch on the operator.
abbrev pub holds : Text → Cmp → Bool
holds op c =
    if op === codes "=="
    then is_same c
    else if op === codes "!="
    then not (is_same c)
    else if op === codes "<"
    then is_less c
    else if op === codes "<="
    then is_less c || is_same c
    else if op === codes ">"
    then is_more c
    else if op === codes ">="
    then is_more c || is_same c
    else true

unfoldable pub cmp_version_strings : Text → Text → Text → Bool
cmp_version_strings have op want =
    holds op (cmp_parts (parse_short_ver have) (parse_short_ver want))

abbrev pub part : List ℤ → ℕ → ℤ
part [] i = pos 0
part (a ∷ v) zero = a
part (a ∷ v) (suc i) = part v i
