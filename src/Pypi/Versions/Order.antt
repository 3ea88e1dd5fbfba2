-- ===== src/Pypi/Versions/Order.antt =====
-- What the comparison of version numbers means.
use mirrorhub.Base.{ℕ, zero, suc, ◌<◌, ◌≡◌, refl, sym, ◌∙◌, List, [], ◌∷◌, arith, ℤ, pos, negsuc}
use mirrorhub.Base.Text.{Text}
use mirrorhub.Pypi.Versions.{
  Cmp, less, same, more, cmp_int, or_else, cmp_parts, holds, cmp_version_strings, parse_short_ver,
}

-- A version's part, 0 where it is over.
abbrev pub part : List ℤ → ℕ → ℤ
part [] i = pos 0
part (a ∷ v) zero = a
part (a ∷ v) (suc i) = part v i

-- Two versions agree up to part `i`, and there they compare as `c`.
abbrev pub FirstDifference : List ℤ → List ℤ → ℕ → Cmp → Type 0
FirstDifference v w i c =
    ((j : ℕ) → j < i → part v j ≡ part w j) × (cmp_int (part v i) (part w i) ≡ c)

-- What the comparison means, by parts.
abbrev pub Means : List ℤ → List ℤ → Cmp → Type 0
Means v w same = (j : ℕ) → part v j ≡ part w j
Means v w less = (i : ℕ) × FirstDifference v w i less
Means v w more = (i : ℕ) × FirstDifference v w i more

cmp_int_same : (a b : ℤ) → cmp_int a b ≡ same → a ≡ b
cmp_int_same (pos a) (pos b) h = ground arith
cmp_int_same (pos a) (negsuc b) h = ground arith
cmp_int_same (negsuc a) (pos b) h = ground arith
cmp_int_same (negsuc a) (negsuc b) h = ground arith

abbrev rest : List ℤ → List ℤ
rest [] = []
rest (a ∷ v) = v

part-rest : (v : List ℤ) (j : ℕ) → part v (suc j) ≡ part (rest v) j
part-rest [] j = refl
part-rest (a ∷ v) j = refl

step_part :
    (v w : List ℤ) (j : ℕ) → part (rest v) j ≡ part (rest w) j → part v (suc j) ≡ part w (suc j)
step_part v w j e = part-rest v j ∙ (e ∙ sym (part-rest w j))

module _ (v w : List ℤ) (h : part v 0 ≡ part w 0) where
  all_parts : ((j : ℕ) → part (rest v) j ≡ part (rest w) j) → (j : ℕ) → part v j ≡ part w j
  all_parts m zero = h
  all_parts m (suc j) = step_part v w j (m j)

  parts_before :
      (i : ℕ)
      → ((j : ℕ) → j < i → part (rest v) j ≡ part (rest w) j)
      → (j : ℕ) → j < suc i
      → part v j ≡ part w j
  parts_before i m zero lt = h
  parts_before i m (suc j) lt = step_part v w j (m j (omega arith))

  difference_behind :
      (i : ℕ) (c : Cmp) → FirstDifference (rest v) (rest w) i c → FirstDifference v w (suc i) c
  difference_behind i c (agree, e) = (parts_before i agree, rw (part-rest v i, part-rest w i) e)

  -- What is found behind two equal first parts holds of the whole.
  Means-rest : (c : Cmp) → Means (rest v) (rest w) c → Means v w c
  Means-rest same m = all_parts m
  Means-rest less (i, d) = (suc i, difference_behind i less d)
  Means-rest more (i, d) = (suc i, difference_behind i more d)

-- The first parts decide, or else what follows.
Means-or_else :
    (v w : List ℤ) (c c' : Cmp)
    → cmp_int (part v 0) (part w 0) ≡ c
    → Means (rest v) (rest w) c'
    → Means v w (or_else c c')
Means-or_else v w less c' e m = (0, ((λ j lt. absurd (omega arith)), e))
Means-or_else v w same c' e m = Means-rest v w (cmp_int_same (part v 0) (part w 0) e) c' m
Means-or_else v w more c' e m = (0, ((λ j lt. absurd (omega arith)), e))

-- Comparing two versions finds their first difference, in which the one that is over counts as
-- zeros, or that there is none.
pub cmp_parts-Means : (v w : List ℤ) → Means v w (cmp_parts v w)
unfolding cmp_parts
cmp_parts-Means [] [] = λ j. refl
cmp_parts-Means [] (b ∷ w) = Means-or_else [] (b ∷ w) _ _ refl (cmp_parts-Means [] w)
cmp_parts-Means (a ∷ v) [] = Means-or_else (a ∷ v) [] _ _ refl (cmp_parts-Means v [])
cmp_parts-Means (a ∷ v) (b ∷ w) = Means-or_else (a ∷ v) (b ∷ w) _ _ refl (cmp_parts-Means v w)

abbrev flip : Cmp → Cmp
flip less = more
flip same = same
flip more = less

cmp_int-flip : (a b : ℤ) → cmp_int b a ≡ flip (cmp_int a b)
cmp_int-flip (pos a) (pos b) = ground arith
cmp_int-flip (pos a) (negsuc b) = refl
cmp_int-flip (negsuc a) (pos b) = refl
cmp_int-flip (negsuc a) (negsuc b) = ground arith

or_else-flip : (c c' : Cmp) → or_else (flip c) (flip c') ≡ flip (or_else c c')
or_else-flip less c' = refl
or_else-flip same c' = refl
or_else-flip more c' = refl

pub cmp_parts-flip : (v w : List ℤ) → cmp_parts w v ≡ flip (cmp_parts v w)
unfolding cmp_parts
cmp_parts-flip [] [] = refl
cmp_parts-flip [] (b ∷ w) = rw (cmp_int-flip (pos 0) b, cmp_parts-flip [] w) (or_else-flip _ _)
cmp_parts-flip (a ∷ v) [] = rw (cmp_int-flip a (pos 0), cmp_parts-flip v []) (or_else-flip _ _)
cmp_parts-flip (a ∷ v) (b ∷ w) = rw (cmp_int-flip a b, cmp_parts-flip v w) (or_else-flip _ _)

-- Every operator of a marker tests one comparison of the two versions: they agree in all parts, or
-- the first part in which they differ is the smaller or the larger one; a version that is over goes
-- on with zeros.
pub cmp_version_strings_lem :
    (have want : Text)
    → (c : Cmp) × Means (parse_short_ver have) (parse_short_ver want) c
      × ((op : Text) → cmp_version_strings have op want ≡ holds op c)
unfolding cmp_version_strings
cmp_version_strings_lem have want =
    let v = parse_short_ver have in
    let w = parse_short_ver want in (cmp_parts v w, cmp_parts-Means v w, λ op. refl)
