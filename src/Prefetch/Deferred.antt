-- ===== src/Prefetch/Deferred.antt =====
-- What every history of the deferred queues keeps.
use mirrorhub.Base.{
  count_one_more, count_other, ℕ, ◌+◌, ◌≤◌, ◌≡◌, refl, subst, Bool, true, false, not, List, [], ◌∷◌,
  ◌++◌, arith, if◌then◌else◌, leb, keep, count, count-keep-le, count-keep_split, All, All-keep_test,
  All-map, ◌<◌,
}
use mirrorhub.Base.Text.{Text, text_dec, ◌===◌}
use mirrorhub.Prefetch.{
  Service, DelayedItem, WaitingItem, Platform, other_url, is_delayed, is_waiting, delayed_item,
  waiting_item, enqueue_delayed, enqueue_waiting, drain_delayed, drain_waiting, clear_delayed,
  clear_waiting, clear_deferred, delayed_of, waiting_of, is_early, is_ready,
  normalize_prefetch_platform,
}

abbrev pub deferred : Text → Service → ℕ
deferred u s = count (λ d. d.url === u) s.delayed + count (λ w. w.url === u) s.waiting

not_delayed :
    (u : Text) (ds : List DelayedItem) → is_delayed u ds ≡ false → count (λ d. d.url === u) ds ≡ 0
unfolding count
not_delayed u [] e = refl
not_delayed u (d ∷ ds) e = ground (arith, not_delayed u ds)

not_waiting :
    (u : Text) (ws : List WaitingItem) → is_waiting u ws ≡ false → count (λ w. w.url === u) ws ≡ 0
unfolding count
not_waiting u [] e = refl
not_waiting u (w ∷ ws) e = ground (arith, not_waiting u ws)

others_only :
    (u : Text) (ws : List WaitingItem) → count (λ w. w.url === u) (keep (other_url u) ws) ≡ 0
unfolding count keep
others_only u [] = refl
others_only u (w ∷ ws) = ground (arith, others_only u ws)

if-once :
    (b : Bool) (s t : Service) (u : Text)
    → (b ≡ true → deferred u s ≤ 1)
    → (b ≡ false → deferred u t ≤ 1)
    → deferred u (if b then s else t) ≤ 1
if-once true s t u h g = h refl
if-once false s t u h g = g refl

delayed_same :
    (url platform : Text) (attempt now : ℕ) (s : Service)
    → deferred url s ≤ 1
    → deferred url (enqueue_delayed url platform attempt now s) ≤ 1
unfolding enqueue_delayed
delayed_same url platform attempt now s h =
    let item = delayed_item url platform attempt now in
    let gone = others_only url s.waiting in
    let kept = record s { waiting = keep (other_url url) s.waiting } in
    let more = record kept { delayed = s.delayed ++ item ∷ [] } in
    if-once (leb 5 attempt) s (if is_delayed url s.delayed then kept else more) url (λ _. h)
      (λ _.
        if-once (is_delayed url s.delayed) kept more url (λ _. omega arith)
          (λ e.
            let none_yet = not_delayed url s.delayed e in
            omega (arith, count_one_more (λ d. d.url === url) s.delayed item)))

delayed_other :
    (url platform : Text) (attempt now : ℕ) (s : Service) (u : Text)
    → (url === u) ≡ false
    → deferred u s ≤ 1
    → deferred u (enqueue_delayed url platform attempt now s) ≤ 1
unfolding enqueue_delayed
delayed_other url platform attempt now s u n h =
    let item = delayed_item url platform attempt now in
    let fewer = count-keep-le (λ w. w.url === u) (other_url url) s.waiting in
    let kept = record s { waiting = keep (other_url url) s.waiting } in
    let more = record kept { delayed = s.delayed ++ item ∷ [] } in
    if-once (leb 5 attempt) s (if is_delayed url s.delayed then kept else more) u (λ _. h)
      (λ _.
        if-once (is_delayed url s.delayed) kept more u (λ _. omega arith)
          (λ _. omega (arith, count_other (λ d. d.url === u) s.delayed item n)))

waiting_same :
    (url platform : Text) (attempt : ℕ) (s : Service)
    → deferred url s ≤ 1
    → deferred url (enqueue_waiting url platform attempt s) ≤ 1
unfolding enqueue_waiting
waiting_same url platform attempt s h =
    let item = waiting_item url platform attempt in
    let more = record s { waiting = s.waiting ++ item ∷ [] } in
    if-once (is_delayed url s.delayed) s (if is_waiting url s.waiting then s else more) url (λ _. h)
      (λ e.
        if-once (is_waiting url s.waiting) s more url (λ _. h)
          (λ f.
            let none_delayed = not_delayed url s.delayed e in
            let none_waiting = not_waiting url s.waiting f in
            omega (arith, count_one_more (λ w. w.url === url) s.waiting item)))

waiting_other :
    (url platform : Text) (attempt : ℕ) (s : Service) (u : Text)
    → (url === u) ≡ false
    → deferred u s ≤ 1
    → deferred u (enqueue_waiting url platform attempt s) ≤ 1
unfolding enqueue_waiting
waiting_other url platform attempt s u n h =
    let item = waiting_item url platform attempt in
    let more = record s { waiting = s.waiting ++ item ∷ [] } in
    if-once (is_delayed url s.delayed) s (if is_waiting url s.waiting then s else more) u (λ _. h)
      (λ _.
        if-once (is_waiting url s.waiting) s more u (λ _. h)
          (λ _. omega (arith, count_other (λ w. w.url === u) s.waiting item n)))

-- What a request or the service's loop does to the queues in one critical section.
pub data Step (platforms : List Platform) : Service → Service → Type 0 where
  delays :
      (s : Service) (url platform : Text) (attempt now : ℕ)
      → Step platforms s (enqueue_delayed url platform attempt now s)
  waits :
      (s : Service) (url platform : Text) (attempt : ℕ)
      → Step platforms s (enqueue_waiting url platform attempt s)
  drains_delayed : (s : Service) (now : ℕ) → Step platforms s (drain_delayed now s).0
  drains_waiting : (s : Service) → Step platforms s (drain_waiting s).0
  clears : (s : Service) (platform : Text) → Step platforms s (clear_deferred platforms platform s)

pub data Reach (platforms : List Platform) (s : Service) : Service → Type 0 where
  here : Reach platforms s s
  next : {t u : Service} → Reach platforms s t → Step platforms t u → Reach platforms s u

delays_once :
    (url platform : Text) (attempt now : ℕ) (s : Service) (u : Text)
    → deferred u s ≤ 1
    → deferred u (enqueue_delayed url platform attempt now s) ≤ 1
delays_once url platform attempt now s u h = elim (text_dec url u) [
  | yes same ↦
      subst (λ v. deferred v s ≤ 1 → deferred v (enqueue_delayed url platform attempt now s) ≤ 1)
        same (delayed_same url platform attempt now s) h
  | no other ↦ delayed_other url platform attempt now s u (ground arith) h
]

waits_once :
    (url platform : Text) (attempt : ℕ) (s : Service) (u : Text)
    → deferred u s ≤ 1
    → deferred u (enqueue_waiting url platform attempt s) ≤ 1
waits_once url platform attempt s u h = elim (text_dec url u) [
  | yes same ↦
      subst (λ v. deferred v s ≤ 1 → deferred v (enqueue_waiting url platform attempt s) ≤ 1) same
        (waiting_same url platform attempt s) h
  | no other ↦ waiting_other url platform attempt s u (ground arith) h
]

clears_less :
    (platforms : List Platform) (p : Text) (s : Service) (u : Text)
    → deferred u (clear_waiting platforms p (clear_delayed platforms p s)) ≤ deferred u s
unfolding clear_delayed clear_waiting count
clears_less platforms [] s u = omega arith
clears_less platforms (c ∷ cs) s u =
    let p = c ∷ cs in
    omega (
      arith,
      count-keep-le (λ d. d.url === u) (λ d. not (delayed_of platforms p d)) s.delayed,
      count-keep-le (λ w. w.url === u) (λ w. not (waiting_of platforms p w)) s.waiting,
    )

Step-once :
    {platforms : List Platform} {s t : Service}
    → Step platforms s t
    → (u : Text) → deferred u s ≤ 1
    → deferred u t ≤ 1
unfolding drain_delayed drain_waiting clear_deferred count
Step-once (delays s url platform attempt now) u h = delays_once url platform attempt now s u h
Step-once (waits s url platform attempt) u h = waits_once url platform attempt s u h
Step-once (drains_delayed s now) u h =
    omega (arith, count-keep-le (λ d. d.url === u) (is_early now) s.delayed)
Step-once (drains_waiting s) u h = omega arith
Step-once (clears s platform) u h =
    omega (arith, clears_less _ (normalize_prefetch_platform platform) s u)

-- A URL that stands at most once in the delayed and the waiting queue together still does after
-- any history of putting off, draining and clearing.
pub deferred_once :
    {platforms : List Platform} {s t : Service} (u : Text)
    → deferred u s ≤ 1
    → Reach platforms s t
    → deferred u t ≤ 1
deferred_once u h here = h
deferred_once u h (next r st) = Step-once st u (deferred_once u h r)

-- Draining the delayed queue starts only items whose time has come and keeps only items whose
-- time has not, and any kind of item is found as often among the started and the kept ones as it
-- was in the queue.
pub drain_delayed_splits :
    (now : ℕ) (s : Service) (p : DelayedItem → Bool)
    → let d = drain_delayed now s in
      All (λ i. i.after ≤ now) d.1
      × All (λ i. now < i.after) d.0.delayed
      × (count p d.0.delayed + count p d.1 ≡ count p s.delayed)
unfolding drain_delayed
drain_delayed_splits now s p = (
  All-map (λ i. is_ready now i ≡ true) (λ i. i.after ≤ now) (λ i e. ground arith) _
      (All-keep_test (is_ready now) s.delayed),
  All-map (λ i. is_early now i ≡ true) (λ i. now < i.after) (λ i e. ground arith) _
      (All-keep_test (is_early now) s.delayed),
  count-keep_split p (is_early now) s.delayed,
)
