-- ===== src/Scheduler/Surplus.antt =====
-- Which failed tasks pruning takes for surplus, and how many it leaves.
use mirrorhub.Base.{
  ℕ, zero, suc, ◌-◌, ◌≤◌, ◌<◌, ◌≡◌, ◌∙◌, refl, ap, sym, Bool, true, false, not, ◌&&◌, none, List,
  [], ◌∷◌, arith, if◌then◌else◌, inl, inr, length, take, keep, count, leb, Bool-cases, Option-cases,
  for_each, All, All-map, count-keep-le,
}
use mirrorhub.Base.Text.{Text, text_dec}
use mirrorhub.Base.Assoc.{lookup}
use mirrorhub.Scheduler.State.{Scheduler, error_task_max_n}
use mirrorhub.Scheduler.Ending.{
  has, insert_by, sort_by, is_error_id, is_held, surplus_errors, drop_listed, updated,
  prune_surplus, drop_task,
}
use mirrorhub.Scheduler.Active.{release_active}
use mirrorhub.Scheduler.Invariant.{lookup-drop}

lookup-drop_loop :
    (ids : List Text) (j : Text) (xs : List Text) (s : Scheduler)
    → lookup j (for_each (drop_listed ids) xs s).tasks
      ≡ (if has j xs && has j ids then none else lookup j s.tasks)
unfolding for_each drop_listed
lookup-drop_loop ids j [] s = refl
lookup-drop_loop ids j (x ∷ xs) s =
    ground (arith, lookup-drop_loop ids j xs (drop_listed ids x s), lookup-drop x j s)

-- Pruning the surplus drops its tasks and no other.
pub lookup-prune_surplus :
    (k : Text) (s : Scheduler)
    → lookup k (prune_surplus s).tasks
      ≡ (if has k s.order && has k (surplus_errors s) then none else lookup k s.tasks)
unfolding prune_surplus
lookup-prune_surplus k s = lookup-drop_loop (surplus_errors s) k s.order s

has-take : (k : Text) (n : ℕ) (xs : List Text) → has k (take n xs) ≡ true → has k xs ≡ true
has-take k zero xs h = cc
has-take k (suc n) [] h = h
has-take k (suc n) (x ∷ xs) h = ground (arith, has-take k n xs)

has-insert_by :
    (key : Text → ℕ) (k x : Text) (ys : List Text) → has k (insert_by key x ys) ≡ has k (x ∷ ys)
unfolding insert_by
has-insert_by key k x [] = refl
has-insert_by key k x (y ∷ ys) = ground (arith, has-insert_by key k x ys)

has-sort_by : (key : Text → ℕ) (k : Text) (xs : List Text) → has k (sort_by key xs) ≡ has k xs
unfolding sort_by
has-sort_by key k [] = refl
has-sort_by key k (x ∷ xs) =
    has-insert_by key k x (sort_by key xs) ∙ ground (arith, has-sort_by key k xs)

has-keep_test :
    (p : Text → Bool) (k : Text) (xs : List Text) → has k (keep p xs) ≡ true → p k ≡ true
unfolding keep
has-keep_test p k [] h = cc
has-keep_test p k (x ∷ xs) h = elim (text_dec x k) [
  | yes e ↦ ground (arith, e, ap p e, has-keep_test p k xs)
  | no n ↦ ground (arith, has-keep_test p k xs)
]

-- The failed tasks that are listed.
abbrev pub failed_listed : Scheduler → ℕ
failed_listed s = length (keep (is_error_id s) s.order)

-- A task is surplus only if it failed, and more failed tasks are listed than are kept.
pub surplus-failed :
    (s : Scheduler) (k : Text)
    → has k (surplus_errors s) ≡ true
    → (is_error_id s k ≡ true) × (error_task_max_n < failed_listed s)
unfolding surplus_errors
surplus-failed s k h =
    let ids = keep (is_error_id s) s.order in
    elim (Bool-cases (leb (length ids) error_task_max_n)) [
      | inl few ↦ absurd (ground (arith, few, h))
      | inr many ↦
          let sorted = sort_by (updated s) ids in
          let n = length ids - error_task_max_n in
          let listed : has k (take n sorted) ≡ true = ground (arith, many, h) in
          let failed : has k ids ≡ true =
            sym (has-sort_by (updated s) k ids) ∙ has-take k n sorted listed in
          (has-keep_test (is_error_id s) k s.order failed, ground (arith, many))
    ]

length-keep : (p : Text → Bool) (xs : List Text) → length (keep p xs) ≡ count p xs
unfolding keep count
length-keep p [] = refl
length-keep p (x ∷ xs) = ground (arith, length-keep p xs)

count-insert_by :
    (p : Text → Bool) (key : Text → ℕ) (x : Text) (ys : List Text)
    → count p (insert_by key x ys) ≡ count p (x ∷ ys)
unfolding count insert_by
count-insert_by p key x [] = refl
count-insert_by p key x (y ∷ ys) = ground (arith, count-insert_by p key x ys)

count-sort_by :
    (p : Text → Bool) (key : Text → ℕ) (xs : List Text) → count p (sort_by key xs) ≡ count p xs
unfolding sort_by count
count-sort_by p key [] = refl
count-sort_by p key (x ∷ xs) =
    count-insert_by p key x (sort_by key xs) ∙ ground (arith, count-sort_by p key xs)

length-insert_by :
    (key : Text → ℕ) (x : Text) (ys : List Text) → length (insert_by key x ys) ≡ suc (length ys)
unfolding insert_by
length-insert_by key x [] = refl
length-insert_by key x (y ∷ ys) = ground (arith, length-insert_by key x ys)

length-sort_by : (key : Text → ℕ) (xs : List Text) → length (sort_by key xs) ≡ length xs
unfolding sort_by
length-sort_by key [] = refl
length-sort_by key (x ∷ xs) =
    length-insert_by key x (sort_by key xs) ∙ ap suc (length-sort_by key xs)

count-le-length : (p : Text → Bool) (xs : List Text) → count p xs ≤ length xs
unfolding count
count-le-length p [] = omega arith
count-le-length p (x ∷ xs) = ground (arith, count-le-length p xs)

-- Where no text among the first `n` passes the test, at most the others do.
count-take_none :
    (p : Text → Bool) (n : ℕ) (xs : List Text)
    → All (λ x. p x ≡ false) (take n xs)
    → count p xs ≤ length xs - n
unfolding count
count-take_none p zero xs h = omega (arith, count-le-length p xs)
count-take_none p (suc n) [] h = omega arith
count-take_none p (suc n) (x ∷ xs) h = ground (arith, count-take_none p n xs h.1)

has_longer :
    (y : Text) (ys xs : List Text)
    → All (λ x. has x ys ≡ true) xs
    → All (λ x. has x (y ∷ ys) ≡ true) xs
has_longer y ys xs h = All-map _ _ (λ x e. ground (arith, e)) xs h

All-has : (xs : List Text) → All (λ x. has x xs ≡ true) xs
All-has [] = tt
All-has (x ∷ xs) = (ground arith, has_longer x xs xs (All-has xs))

count_fewer :
    (p q : Text → Bool) (xs ys : List Text)
    → All (λ x. has x ys ≡ true) xs
    → ((x : Text) → has x ys ≡ true → p x ≡ true → q x ≡ true)
    → count p xs ≤ count q xs
unfolding count
count_fewer p q [] ys h f = omega arith
count_fewer p q (x ∷ xs) ys h f = ground (arith, f x h.0, count_fewer p q xs ys h.1 f)

count-keep : (p q : Text → Bool) (xs : List Text) → count q (keep p xs) ≡ count (λ x. p x && q x) xs
unfolding count keep
count-keep p q [] = refl
count-keep p q (x ∷ xs) = ground (arith, count-keep p q xs)

order-drop : (k : Text) (s : Scheduler) → (drop_task k s).order ≡ s.order
unfolding drop_task release_active
order-drop k s = elim (Option-cases (lookup k s.tasks)) [
  | inl e ↦ rw (e, release_active) refl
  | inr (t, e) ↦ rw (e, release_active) (ground arith)
]

order-drop_loop :
    (ids xs : List Text) (s : Scheduler) → (for_each (drop_listed ids) xs s).order ≡ s.order
unfolding for_each drop_listed
order-drop_loop ids [] s = refl
order-drop_loop ids (x ∷ xs) s =
    ground (arith, order-drop_loop ids xs (drop_listed ids x s), order-drop x s)

-- At most as many failed tasks as are kept are no surplus.
count_unlisted :
    (s : Scheduler)
    → count (λ x. not (has x (surplus_errors s))) (keep (is_error_id s) s.order) ≤ error_task_max_n
unfolding surplus_errors
count_unlisted s =
    let ids = keep (is_error_id s) s.order in
    elim (Bool-cases (leb (length ids) error_task_max_n)) [
      | inl few ↦
          let small : length ids ≤ error_task_max_n = ground arith in
          omega (arith, count-le-length (λ x. not (has x (surplus_errors s))) ids, small)
      | inr many ↦
          let sorted = sort_by (updated s) ids in
          let n = length ids - error_task_max_n in
          let q : Text → Bool = λ x. not (has x (take n sorted)) in
          let listed =
            All-map _ (λ x. q x ≡ false) (λ x e. ground (arith, e)) (take n sorted)
              (All-has (take n sorted)) in
          let large : error_task_max_n < length ids = ground arith in
          let bound : count q ids ≤ error_task_max_n = omega (
            arith,
            count-sort_by q (updated s) ids,
            length-sort_by (updated s) ids,
            count-take_none q n sorted listed,
            large,
          ) in
          rw many bound
    ]

-- Pruning leaves no more failed tasks than are kept.
pub prune_surplus-le : (s : Scheduler) → failed_listed (prune_surplus s) ≤ error_task_max_n
unfolding prune_surplus
prune_surplus-le s =
    let ids = surplus_errors s in
    let s' = for_each (drop_listed ids) s.order s in
    let fewer =
      count_fewer (is_error_id s') (λ x. is_error_id s x && not (has x ids)) s.order s.order
        (All-has s.order)
        (λ x there failed. ground (arith, there, failed, lookup-drop_loop ids x s.order s)) in
    omega (
      arith,
      length-keep (is_error_id s') (keep (is_held s') s'.order),
      count-keep-le (is_error_id s') (is_held s') s'.order,
      ap (count (is_error_id s')) (order-drop_loop ids s.order s),
      fewer,
      count-keep (is_error_id s) (λ x. not (has x ids)) s.order,
      count_unlisted s,
    )
