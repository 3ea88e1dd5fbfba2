-- ===== src/Traffic/Pages.antt =====
-- The pages of ListAccess.
use mirrorhub.Base.{
  ℕ, zero, suc, ◌+◌, ◌-◌, ◌*◌, ◌≤◌, ◌<◌, ◌≡◌, refl, sym, ap, ◌∙◌, List, [], ◌++◌, arith, length,
  length-drop, take, drop, take_all, take-add, drop_all, pos, ltb, leb, Bool-cases, inl, inr,
}
use mirrorhub.Base.Text.{Text}
use mirrorhub.Traffic.{Access, Recorder, list_access, matched, page_from, at_least_one}

-- Pages 1 to `k`, one after the other.
abbrev pub first_pages : ℕ → ℕ → Text → Recorder → List Access
first_pages zero size platform r = []
first_pages (suc k) size platform r =
    first_pages k size platform r ++ (list_access (pos (suc k)) (pos size) platform r).0

page_from_lem :
    (start size : ℕ) (all : List Access) → page_from start size all ≡ take size (drop start all)
unfolding page_from
page_from_lem start size all = elim (Bool-cases (leb (length all) start)) [
  | inl e ↦
      let past : drop start all ≡ [] = drop_all start all (ground arith) in
      rw (e, past) (sym (take_all size [] (omega arith)))
  | inr e ↦ elim (Bool-cases (ltb (length all) (start + size))) [
    | inl f ↦
        let rest = drop start all in
        let left : length all - start ≡ length rest = omega (arith, length-drop start all) in
        let few : length rest ≤ size = ground (arith, length-drop start all) in
        rw (e, f, left) (take_all (length rest) rest (omega arith) ∙ sym (take_all size rest few))
    | inr f ↦ let n : start + size - start ≡ size = omega arith in rw (e, f, n) refl
  ]
]

page_lem :
    (k size : ℕ) (platform : Text) (r : Recorder)
    → 0 < size
    → (list_access (pos (suc k)) (pos size) platform r).0
      ≡ take size (drop (k * size) (matched platform r))
unfolding list_access
page_lem k size platform r h =
    let before : at_least_one (pos (suc k)) 1 - 1 ≡ k = ground arith in
    let n : at_least_one (pos size) 20 ≡ size = ground arith in
    let all = matched platform r in rw (before, n) (page_from_lem (k * size) size all)

-- For any positive page size, pages 1 to `k` one after the other are the first `k` times that many
-- of the requests that match, from the latest on, and each page also says how many match in all.
pub first_pages_lem :
    (k size : ℕ) (platform : Text) (r : Recorder)
    → 0 < size
    → (first_pages k size platform r ≡ take (k * size) (matched platform r))
      × ((list_access (pos k) (pos size) platform r).1 ≡ length (matched platform r))
unfolding list_access
first_pages_lem zero size platform r h =
    let e : zero ≡ zero * size = omega arith in
    (ap (λ (m : ℕ). take m (matched platform r)) e, refl)
first_pages_lem (suc k) size platform r h =
    let all = matched platform r in
    let n : k * size + size ≡ suc k * size = omega arith in
    (
      rw ((first_pages_lem k size platform r h).0, page_lem k size platform r h)
          (sym (take-add (k * size) size all) ∙ ap (λ (m : ℕ). take m all) n),
      refl,
    )
