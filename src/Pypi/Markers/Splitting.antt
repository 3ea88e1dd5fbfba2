-- ===== src/Pypi/Markers/Splitting.antt =====
-- What splitting a marker at ` and ` leaves.
use mirrorhub.Base.{
  ℕ, zero, suc, ◌+◌, ◌≤◌, ◌<◌, ltb, ◌≡◌, refl, sym, ap, ◌∙◌, inl, inr, true, false, none, some,
  List, [], ◌∷◌, ◌++◌, arith, length, take, drop, All, length-drop, drop-drop, Bool-cases,
  Option-cases,
}
use mathlib.Core.List.{append-nil}
use mirrorhub.Base.Text.{Text, codes, has_prefix, contains, to_lower}
use mirrorhub.Base.Split.{index_of}
use mirrorhub.Pypi.Markers.{split_loop, split_marker_and}

abbrev sep : Text
sep = codes " and "

-- What follows the first part of a marker that is put together again.
abbrev pub glue : List Text → Text
glue [] = []
glue (p ∷ ps) = codes " and " ++ (p ++ glue ps)

abbrev pub join_and : List Text → Text
join_and [] = []
join_and (p ∷ ps) = p ++ glue ps

to_lower-append : (s t : Text) → to_lower (s ++ t) ≡ to_lower s ++ to_lower t
unfolding to_lower
to_lower-append [] t = refl
to_lower-append (c ∷ s) t = cc (to_lower-append s t)

length-to_lower : (s : Text) → length (to_lower s) ≡ length s
unfolding to_lower
length-to_lower [] = refl
length-to_lower (c ∷ s) = ap suc (length-to_lower s)

to_lower-take : (n : ℕ) (s : Text) → to_lower (take n s) ≡ take n (to_lower s)
unfolding to_lower
to_lower-take zero s = refl
to_lower-take (suc n) [] = refl
to_lower-take (suc n) (c ∷ s) = cc (to_lower-take n s)

to_lower-drop : (n : ℕ) (s : Text) → to_lower (drop n s) ≡ drop n (to_lower s)
unfolding to_lower
to_lower-drop zero s = refl
to_lower-drop (suc n) [] = refl
to_lower-drop (suc n) (c ∷ s) = to_lower-drop n s

has_prefix-split : (p s : Text) → has_prefix p s ≡ true → s ≡ p ++ drop (length p) s
unfolding has_prefix
has_prefix-split [] s h = refl
has_prefix-split (a ∷ p) [] h = cc
has_prefix-split (a ∷ p) (c ∷ s) h = ground (arith, has_prefix-split p s)

has_prefix-take : (p s : Text) (n : ℕ) → has_prefix p (take n s) ≡ true → has_prefix p s ≡ true
unfolding has_prefix
has_prefix-take [] s n h = refl
has_prefix-take (a ∷ p) s zero h = cc
has_prefix-take (a ∷ p) [] (suc n) h = cc
has_prefix-take (a ∷ p) (c ∷ s) (suc n) h = ground (arith, has_prefix-take p s n)

module _ (a : ℕ) (sub : Text) where
  found_later :
      (c : ℕ) (s : Text) (i : ℕ)
      → index_of (a ∷ sub) (c ∷ s) ≡ some (suc i)
      → (index_of (a ∷ sub) s ≡ some i) × (has_prefix (a ∷ sub) (c ∷ s) ≡ false)
  unfolding index_of
  found_later c s i h = elim (Bool-cases (has_prefix (a ∷ sub) (c ∷ s))) [
    | inl e ↦ absurd (ground (arith, e, h))
    | inr e ↦ (ground (arith, e, h), e)
  ]

  found_here :
      (c : ℕ) (s : Text) → index_of (a ∷ sub) (c ∷ s) ≡ some 0 → has_prefix (a ∷ sub) (c ∷ s) ≡ true
  unfolding index_of
  found_here c s h = ground (arith, h)

  -- The text before an occurrence, the occurrence, and the rest.
  index_of-split :
      (s : Text) (i : ℕ)
      → index_of (a ∷ sub) s ≡ some i
      → s ≡ take i s ++ ((a ∷ sub) ++ drop (length (a ∷ sub)) (drop i s))
  index_of-split [] i h = absurd (unfold index_of in cc)
  index_of-split (c ∷ s) zero h = has_prefix-split (a ∷ sub) (c ∷ s) (found_here c s h)
  index_of-split (c ∷ s) (suc i) h = ap (◌∷◌ c) (index_of-split s i (found_later c s i h).0)

  -- The occurrence is the first one.
  index_of-take :
      (s : Text) (i : ℕ) → index_of (a ∷ sub) s ≡ some i → index_of (a ∷ sub) (take i s) ≡ none
  unfolding index_of
  index_of-take [] i h = cc
  index_of-take (c ∷ s) zero h = refl
  index_of-take (c ∷ s) (suc i) h =
      let later = found_later c s i h in
      elim (Bool-cases (has_prefix (a ∷ sub) (c ∷ take i s))) [
        | inl e ↦ absurd (cc (has_prefix-take (a ∷ sub) (c ∷ s) (suc i) e, later.1))
        | inr e ↦ rw (e, index_of-take s i later.0) refl
      ]

glue-cons :
    (p : Text) (ps : List Text)
    → to_lower (glue (p ∷ ps)) ≡ sep ++ (to_lower p ++ to_lower (glue ps))
unfolding to_lower
glue-cons p ps = ap (◌++◌ sep) (to_lower-append p (glue ps))

glue_alone : (s : Text) → to_lower (glue (s ∷ [])) ≡ sep ++ to_lower s
unfolding to_lower
glue_alone s = glue-cons s [] ∙ ap (◌++◌ sep) (append-nil (to_lower s))

-- A marker in lower case around an occurrence of ` and `.
around :
    (s : Text) (i : ℕ)
    → index_of sep (to_lower s) ≡ some i
    → to_lower (take i s) ++ (sep ++ to_lower (drop (i + 5) s)) ≡ to_lower s
around s i found =
    rw (to_lower-take i s, to_lower-drop (i + 5) s, ← drop-drop 5 i (to_lower s))
      (sym (index_of-split 32 (codes "and ") (to_lower s) i found))

-- The parts of a marker whose letters lose only their case.
split_parts : ℕ → Text → List Text
split_parts zero rest = rest ∷ []
split_parts (suc fuel) rest = elim (index_of sep (to_lower rest)) [
  | none ↦ rest ∷ []
  | some idx ↦ take idx rest ∷ split_parts fuel (drop (idx + 5) rest)
]

split_last : (f : ℕ) (s : Text) → index_of sep (to_lower s) ≡ none → split_parts (suc f) s ≡ s ∷ []
unfolding split_parts
split_last f s last = rw (last, split_parts) refl

split_once :
    (f : ℕ) (s : Text) (i : ℕ)
    → index_of sep (to_lower s) ≡ some i
    → split_parts (suc f) s ≡ take i s ∷ split_parts f (drop (i + 5) s)
unfolding split_parts
split_once f s i found = rw (found, split_parts) refl

split_parts-glue : (f : ℕ) (s : Text) → to_lower (glue (split_parts f s)) ≡ sep ++ to_lower s
unfolding split_parts
split_parts-glue zero s = glue_alone s
split_parts-glue (suc f) s = elim (Option-cases (index_of sep (to_lower s))) [
  | inl last ↦ rw (split_last f s last) (glue_alone s)
  | inr (i, found) ↦
      let behind = drop (i + 5) s in
      rw (split_once f s i found) (
        glue-cons (take i s) (split_parts f behind)
        ∙ (ap (λ t. sep ++ (to_lower (take i s) ++ t)) (split_parts-glue f behind)
            ∙ ap (◌++◌ sep) (around s i found)))
]

abbrev IsAtom : Text → Type 0
IsAtom p = index_of sep (to_lower p) ≡ none

nothing-IsAtom : IsAtom []
unfolding index_of to_lower
nothing-IsAtom = refl

join-glue : (ps : List Text) (t : Text) → to_lower (glue ps) ≡ sep ++ t → to_lower (join_and ps) ≡ t
unfolding to_lower
join-glue [] t h = cc
join-glue (p ∷ ps) t h = cc

split_parts-atoms : (f : ℕ) (s : Text) → length s ≤ f → All IsAtom (split_parts f s)
unfolding split_parts
split_parts-atoms zero [] h = (nothing-IsAtom, tt)
split_parts-atoms zero (c ∷ s) h = absurd (omega arith)
split_parts-atoms (suc f) s h = elim (Option-cases (index_of sep (to_lower s))) [
  | inl last ↦ rw (split_last f s last) (last, tt)
  | inr (i, found) ↦
      let atom : IsAtom (take i s) =
        rw (to_lower-take i s) (index_of-take 32 (codes "and ") (to_lower s) i found) in
      rw (split_once f s i found)
        (atom, split_parts-atoms f (drop (i + 5) s) (omega (arith, length-drop (i + 5) s)))
]

has_prefix-length : (p s : Text) → has_prefix p s ≡ true → length p ≤ length s
unfolding has_prefix
has_prefix-length [] s h = omega arith
has_prefix-length (a ∷ p) [] h = cc
has_prefix-length (a ∷ p) (c ∷ s) h = ground (arith, has_prefix-length p s)

-- An occurrence ends in the text.
index_of-within :
    (a : ℕ) (sub s : Text) (i : ℕ) → index_of (a ∷ sub) s ≡ some i → i + length (a ∷ sub) ≤ length s
index_of-within a sub [] i h = absurd (unfold index_of in cc)
index_of-within a sub (c ∷ s) zero h =
    omega (arith, has_prefix-length (a ∷ sub) (c ∷ s) (found_here a sub c s h))
index_of-within a sub (c ∷ s) (suc i) h =
    omega (arith, index_of-within a sub s i (found_later a sub c s i h).0)

All-drop {ℓ} : (P : ℕ → Type ℓ) (n : ℕ) (s : Text) → All P s → All P (drop n s)
All-drop P zero s h = h
All-drop P (suc n) [] h = h
All-drop P (suc n) (c ∷ s) h = All-drop P n s h.1

abbrev pub IsAscii : Text → Type 0
IsAscii s = All (λ c. c < 128) s

module _ (lower : Text → Text) (ascii : (s : Text) → IsAscii s → lower s ≡ to_lower s) where
  -- On ASCII no slice panics.
  split_loop-ascii : (f : ℕ) (s : Text) → IsAscii s → split_loop lower f s ≡ some (split_parts f s)
  unfolding split_loop
  split_loop-ascii zero s h = unfold split_parts in refl
  split_loop-ascii (suc f) s h = elim (Option-cases (index_of sep (to_lower s))) [
    | inl last ↦
        rw (split_last f s last)
          (let e : index_of sep (lower s) ≡ none = rw (ascii s h) last in rw (e, split_loop) refl)
    | inr (i, found) ↦
        let fits : ltb (length s) (i + 5) ≡ false =
          ground
            (arith, length-to_lower s, index_of-within 32 (codes "and ") (to_lower s) i found) in
        let ih = split_loop-ascii f (drop (i + 5) s) (All-drop _ (i + 5) s h) in
        let e : index_of sep (lower s) ≡ some i = rw (ascii s h) found in
        rw (split_once f s i found) (rw (e, split_loop) (rw fits (rw ih refl)))
  ]

  -- With a strings.ToLower that lowers ASCII as it does, a marker of ASCII without ` or ` is split
  -- without a panic; it is put together again from its parts, up to the case of its letters, and no
  -- part has another ` and `.
  pub split_marker_and_lem :
      (marker : Text)
      → IsAscii marker
      → contains (to_lower marker) (codes " or ") ≡ false
      → (parts : List Text) × (split_marker_and lower marker ≡ some parts)
        × (to_lower (join_and parts) ≡ to_lower marker)
        × All (λ p. index_of (codes " and ") (to_lower p) ≡ none) parts
  unfolding split_marker_and
  split_marker_and_lem marker h plain = (
    split_parts (suc (length marker)) marker,
    rw (ascii marker h) (rw plain (split_loop-ascii (suc (length marker)) marker h)),
    join-glue _ (to_lower marker) (split_parts-glue (suc (length marker)) marker),
    split_parts-atoms (suc (length marker)) marker (omega arith),
  )
