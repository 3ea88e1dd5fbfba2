-- ===== src/Downloader/Inflight/Single.antt =====
-- backend/internal/downloader/downloader.go and serve.go: no two downloads of one key at a time.
use mirrorhub.Base.{
  ℕ, ◌≤◌, ◌≡◌, refl, Bool, true, false, ◌&&◌, Option, none, some, arith, Bool-cases, inl, inr,
}
use mirrorhub.Base.Text.{Text, ◌===◌}
use mirrorhub.Base.Assoc.{lookup, lookup-put, lookup-without}
use mirrorhub.Downloader.Inflight.{
  Mode, fetch, stream, Wait, Engine, set_wait, waits_for, stops, join_wait, start_wait, arrive_at,
  arrive, finish, delete_key, close_done, Step, Reach, keeps_key,
}

-- The download of a number still has this key.
abbrev registered_key : Text → Option Wait → Bool
registered_key k none = false
registered_key k (some w) = w.key === k && keeps_key w.phase

pub record IsSingle (s : Engine) : Type 0 where
  pub fresh : (i : ℕ) → s.next ≤ i → s.waits i ≡ none
  pub registered :
      (i : ℕ) (w : Wait)
      → s.waits i ≡ some w
      → keeps_key w.phase ≡ true
      → lookup w.key s.inflight ≡ some i
  pub known :
      (k : Text) (i : ℕ) → lookup k s.inflight ≡ some i → registered_key k (s.waits i) ≡ true
  pub spared : (i : ℕ) (w : Wait) → s.waits i ≡ some w → w.stopped ≡ true → w.mode ≡ fetch

start_wait-IsSingle :
    (key : Text) (mode : Mode) (s : Engine)
    → lookup key s.inflight ≡ none
    → IsSingle s
    → IsSingle (start_wait key mode s)
start_wait-IsSingle key mode s e h = record {
  fresh = λ i le. ground (arith, h.fresh i);
  registered = λ i w f a.
      ground (arith, h.registered i w, h.fresh i, lookup-put key w.key s.next s.inflight);
  known = λ k i f.
      ground
        (arith, h.known k i, h.known k s.next, h.fresh s.next, lookup-put key k s.next s.inflight);
  spared = λ i w f a. ground (arith, h.spared i w);
}

stops-fetch : (m n : Mode) → stops m n ≡ true → n ≡ fetch
stops-fetch stream fetch e = refl
stops-fetch stream stream e = cc
stops-fetch fetch n e = cc

stopped-IsSingle :
    (i : ℕ) (w : Wait) (s : Engine)
    → s.waits i ≡ some w
    → w.mode ≡ fetch
    → IsSingle s
    → IsSingle (set_wait i (record w { stopped = true }) s)
stopped-IsSingle i w s e is_fetch h = record {
  fresh = λ j le. ground (arith, h.fresh j);
  registered = λ j v f a. ground (arith, h.registered j v, h.registered i w);
  known = λ l j f. ground (arith, h.known l j);
  spared = λ j v f a. ground (arith, h.spared j v);
}

join_wait-IsSingle :
    (mode : Mode) (i : ℕ) (o : Option Wait) (s : Engine)
    → s.waits i ≡ o
    → IsSingle s
    → IsSingle (join_wait mode i o s)
join_wait-IsSingle mode i none s e h = h
join_wait-IsSingle mode i (some w) s e h = elim (Bool-cases (stops mode w.mode)) [
  | inl x ↦ rw x (stopped-IsSingle i w s e (stops-fetch mode w.mode x) h)
  | inr x ↦ rw x h
]

arrive_at-IsSingle :
    (key : Text) (mode : Mode) (s : Engine) (o : Option ℕ)
    → lookup key s.inflight ≡ o
    → IsSingle s
    → IsSingle (arrive_at key mode s o).0
arrive_at-IsSingle key mode s none e h = start_wait-IsSingle key mode s e h
arrive_at-IsSingle key mode s (some i) e h = join_wait-IsSingle mode i (s.waits i) s refl h

Step-IsSingle : {s t : Engine} → Step s t → IsSingle s → IsSingle t
unfolding arrive finish delete_key close_done
Step-IsSingle (Step.arrives s key mode) h =
    arrive_at-IsSingle key mode s (lookup key s.inflight) refl h
Step-IsSingle (Step.finishes s i w r e p) h = record {
  fresh = λ j le. ground (arith, h.fresh j);
  registered = λ j v f a. ground (arith, h.registered j v, h.registered i w);
  known = λ k j f. ground (arith, h.known k j);
  spared = λ j v f a. ground (arith, h.spared j v, h.spared i w);
}
Step-IsSingle (Step.deletes s i w r e p) h = record {
  fresh = λ j le. ground (arith, h.fresh j);
  registered = λ j v f a.
      ground (arith, h.registered j v, h.registered i w, lookup-without w.key v.key s.inflight);
  known = λ k j f. ground (arith, h.known k j, h.registered i w, lookup-without w.key k s.inflight);
  spared = λ j v f a. ground (arith, h.spared j v, h.spared i w);
}
Step-IsSingle (Step.closes s i w r e p) h = record {
  fresh = λ j le. ground (arith, h.fresh j);
  registered = λ j v f a. ground (arith, h.registered j v);
  known = λ k j f. ground (arith, h.known k j);
  spared = λ j v f a. ground (arith, h.spared j v, h.spared i w);
}

Reach-IsSingle : {s : Engine} → Reach s → IsSingle s
unfolding lookup
Reach-IsSingle Reach.here = record {
  fresh = λ i le. refl;
  registered = λ i w f a. cc;
  known = λ k i f. cc;
  spared = λ i w f a. cc;
}
Reach-IsSingle (Reach.next_step r st) = Step-IsSingle st (Reach-IsSingle r)

abbrev pub is_stream : Mode → Bool
is_stream fetch = false
is_stream stream = true

-- However requests for any keys arrive, prefetching or interactive, and however the steps of their
-- downloads interleave: two downloads that have not deleted their keys and have the same key are the
-- same one; a download that has to delete its key finds its own number there; a request for that key
-- waits for this download and starts none; and no request has stopped a download that streams.
pub single_flight :
    {s : Engine} (i j : ℕ) (v w : Wait) (mode : Mode)
    → Reach s
    → s.waits i ≡ some v
    → s.waits j ≡ some w
    → keeps_key v.phase ≡ true
    → keeps_key w.phase ≡ true
    → v.key ≡ w.key
    → (i ≡ j)
      × (lookup v.key s.inflight ≡ some i)
      × ((arrive v.key mode s).1 ≡ waits_for i)
      × ((v.stopped && is_stream v.mode) ≡ false)
unfolding arrive
single_flight {s} i j v w mode r e f a b same =
    let h = Reach-IsSingle r in
    let mine : lookup v.key s.inflight ≡ some i = h.registered i v e a in
    let yours : lookup w.key s.inflight ≡ some j = h.registered j w f b in
    (cc, mine, rw mine refl, ground (arith, h.spared i v e))
