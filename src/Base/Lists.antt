-- ===== src/Base/Lists.antt =====
-- Lists over the native numbers: lengths, predicates, loops and sums.
use Prim.Native.Nat.{ℕ, zero, suc, ◌+◌, ◌-◌, ◌≤◌, ◌<◌}
use mathlib.Core.Path.{◌≡◌, refl, ap, ◌∙◌, sym}
use mathlib.Core.Logic.{inl, inr}
use mathlib.Core.Bool.{Bool, true, false, not}
use mathlib.Core.List.{List, [], ◌∷◌, ◌++◌}
use native.Mathlib.Omega.{arith}
use mirrorhub.Base.Tests.{if◌then◌else◌, ltb, Bool-cases}

module _ {ℓ} {A : Type ℓ} where
  abbrev pub length : List A → ℕ
  length [] = 0
  length (x ∷ xs) = suc (length xs)

  pub length-append : (xs ys : List A) → length (xs ++ ys) ≡ length xs + length ys
  length-append [] ys = omega arith
  length-append (x ∷ xs) ys = omega (arith, length-append xs ys)

  abbrev pub take : ℕ → List A → List A
  take zero xs = []
  take (suc n) [] = []
  take (suc n) (x ∷ xs) = x ∷ take n xs

  abbrev pub drop : ℕ → List A → List A
  drop zero xs = xs
  drop (suc n) [] = []
  drop (suc n) (x ∷ xs) = drop n xs

  pub length-drop : (n : ℕ) (xs : List A) → length (drop n xs) ≡ length xs - n
  length-drop zero xs = omega arith
  length-drop (suc n) [] = omega arith
  length-drop (suc n) (x ∷ xs) = omega (arith, length-drop n xs)

  -- `for _, x := range xs { if p(x) { kept = append(kept, x) } }`
  unfoldable pub keep : (A → Bool) → List A → List A
  keep p [] = []
  keep p (x ∷ xs) = let rest = keep p xs in if p x then x ∷ rest else rest

  pub length-keep-le : (p : A → Bool) (xs : List A) → length (keep p xs) ≤ length xs
  unfolding keep
  length-keep-le p [] = omega arith
  length-keep-le p (x ∷ xs) = ground (arith, length-keep-le p xs)

  -- `for _, x := range xs { s = f(x, s) }`
  unfoldable pub for_each {κ} : {S : Type κ} → (A → S → S) → List A → S → S
  for_each f [] s = s
  for_each f (x ∷ xs) s = for_each f xs (f x s)

  -- A property that every round keeps holds after the loop.
  pub for_each_inv {κ μ} :
      {S : Type κ} (P : S → Type μ) (f : A → S → S)
      → ((x : A) (s : S) → P s → P (f x s))
      → (xs : List A) (s : S) → P s
      → P (for_each f xs s)
  unfolding for_each
  for_each_inv P f keeps [] s h = h
  for_each_inv P f keeps (x ∷ xs) s h = for_each_inv P f keeps xs (f x s) (keeps x s h)

  abbrev pub All {κ} : (A → Type κ) → List A → Type κ
  All P [] = Unit
  All P (x ∷ xs) = P x × All P xs

  pub All-keep {κ} : (P : A → Type κ) (p : A → Bool) (xs : List A) → All P xs → All P (keep p xs)
  unfolding keep
  All-keep P p [] h = tt
  All-keep P p (x ∷ xs) h = ground (arith, All-keep P p xs h.1)

  pub All-append {κ} : (P : A → Type κ) (xs ys : List A) → All P xs → All P ys → All P (xs ++ ys)
  All-append P [] ys hx hy = hy
  All-append P (x ∷ xs) ys hx hy = (hx.0, All-append P xs ys hx.1 hy)

  pub All-map {κ μ} :
      (P : A → Type κ) (Q : A → Type μ)
      → ((x : A) → P x → Q x)
      → (xs : List A) → All P xs
      → All Q xs
  All-map P Q f [] h = tt
  All-map P Q f (x ∷ xs) h = (f x h.0, All-map P Q f xs h.1)

  unfoldable pub count : (A → Bool) → List A → ℕ
  count p [] = 0
  count p (x ∷ xs) = if p x then suc (count p xs) else count p xs

  pub count-append : (p : A → Bool) (xs ys : List A) → count p (xs ++ ys) ≡ count p xs + count p ys
  unfolding count
  count-append p [] ys = omega arith
  count-append p (x ∷ xs) ys = ground (arith, count-append p xs ys)

  pub count-keep-le : (p q : A → Bool) (xs : List A) → count p (keep q xs) ≤ count p xs
  unfolding count keep
  count-keep-le p q [] = omega arith
  count-keep-le p q (x ∷ xs) = ground (arith, count-keep-le p q xs)

  -- Keeping by a test and by its opposite splits a list.
  pub count-keep_split :
      (p q : A → Bool) (xs : List A)
      → count p (keep q xs) + count p (keep (λ x. not (q x)) xs) ≡ count p xs
  unfolding count keep
  count-keep_split p q [] = omega arith
  count-keep_split p q (x ∷ xs) = ground (arith, count-keep_split p q xs)

  pub All-keep_test : (q : A → Bool) (xs : List A) → All (λ x. q x ≡ true) (keep q xs)
  unfolding keep
  All-keep_test q [] = tt
  All-keep_test q (x ∷ xs) = ground (arith, All-keep_test q xs)

  pub drop-append : (n : ℕ) (xs ys : List A) → n ≤ length xs → drop n (xs ++ ys) ≡ drop n xs ++ ys
  drop-append zero xs ys h = refl
  drop-append (suc n) [] ys h = absurd (omega arith)
  drop-append (suc n) (x ∷ xs) ys h = drop-append n xs ys (omega arith)

  pub drop-drop : (m n : ℕ) (xs : List A) → drop m (drop n xs) ≡ drop (n + m) xs
  drop-drop m zero xs = let e : m ≡ zero + m = omega arith in ap (λ k. drop k xs) e
  drop-drop zero (suc n) [] = let e : suc n ≡ suc n + zero = omega arith in ap (λ k. drop k []) e
  drop-drop (suc m) (suc n) [] = let e : suc n + suc m ≡ suc (n + suc m) = omega arith in rw e refl
  drop-drop m (suc n) (x ∷ xs) =
      let e : suc n + m ≡ suc (n + m) = omega arith in rw e (drop-drop m n xs)

  pub drop_all : (n : ℕ) (xs : List A) → length xs ≤ n → drop n xs ≡ []
  drop_all zero [] h = refl
  drop_all zero (x ∷ xs) h = absurd (omega arith)
  drop_all (suc n) [] h = refl
  drop_all (suc n) (x ∷ xs) h = drop_all n xs (omega arith)

  -- `if len(xs) > n { xs = xs[len(xs)-n:] }`
  abbrev pub last_of : ℕ → List A → List A
  last_of n xs = if ltb n (length xs) then drop (length xs - n) xs else xs

  last_of-drop : (n : ℕ) (xs : List A) → last_of n xs ≡ drop (length xs - n) xs
  last_of-drop n xs = elim (Bool-cases (ltb n (length xs))) [
    | inl e ↦ rw e refl
    | inr e ↦ let z : length xs - n ≡ 0 = ground arith in rw (e, z) refl
  ]

  pub length-last_of-le : (n : ℕ) (xs : List A) → length (last_of n xs) ≤ n
  length-last_of-le n xs = ground (arith, length-drop (length xs - n) xs)

  -- To keep the last `n` at every step is to keep the last `n` of all.
  pub last_of-snoc :
      (n : ℕ) (xs : List A) (x : A)
      → 0 < n
      → last_of n (last_of n xs ++ x ∷ []) ≡ last_of n (xs ++ x ∷ [])
  last_of-snoc n xs x h = elim (Bool-cases (ltb n (length xs))) [
    | inl e ↦
        let k = length xs - n in
        let lt : n < length xs = ground arith in
        let all = xs ++ x ∷ [] in
        let size : length all ≡ length xs + 1 = omega (arith, length-append xs (x ∷ [])) in
        let kept : last_of n xs ++ x ∷ [] ≡ drop k all =
          rw e (sym (drop-append k xs (x ∷ []) (omega arith))) in
        let one : length (drop k all) - n ≡ 1 = omega (arith, length-drop k all) in
        let rest : k + 1 ≡ length all - n = omega arith in
        ap (last_of n) kept
        ∙ (last_of-drop n (drop k all)
            ∙ (ap (λ (m : ℕ). drop m (drop k all)) one
                ∙ (drop-drop 1 k all
                    ∙ (ap (λ (m : ℕ). drop m all) rest ∙ sym (last_of-drop n all)))))
    | inr e ↦ rw e refl
  ]

  pub take_all : (n : ℕ) (xs : List A) → length xs ≤ n → take n xs ≡ xs
  take_all zero [] h = refl
  take_all zero (x ∷ xs) h = absurd (omega arith)
  take_all (suc n) [] h = refl
  take_all (suc n) (x ∷ xs) h = ap (◌∷◌ x) (take_all n xs (omega arith))

  pub take-add : (m n : ℕ) (xs : List A) → take (m + n) xs ≡ take m xs ++ take n (drop m xs)
  take-add zero n xs = let e : zero + n ≡ n = omega arith in rw e refl
  take-add (suc m) zero [] = let e : suc m + zero ≡ suc m = omega arith in rw e refl
  take-add (suc m) (suc n) [] = let e : suc m + suc n ≡ suc (m + suc n) = omega arith in rw e refl
  take-add (suc m) n (x ∷ xs) =
      let e : suc m + n ≡ suc (m + n) = omega arith in rw e (ap (◌∷◌ x) (take-add m n xs))

  pub count_one_more :
      (p : A → Bool) (xs : List A) (x : A) → count p (xs ++ x ∷ []) ≤ count p xs + 1
  unfolding count
  count_one_more p xs x = ground (arith, count-append p xs (x ∷ []))

  pub count_other :
      (p : A → Bool) (xs : List A) (x : A) → p x ≡ false → count p (xs ++ x ∷ []) ≡ count p xs
  unfolding count
  count_other p xs x e = ground (arith, count-append p xs (x ∷ []))
