-- ===== src/Traffic/Recent.antt =====
-- The requests that the recorder keeps, and what a restart keeps.
use mirrorhub.Base.{
  ℕ, ◌≤◌, ◌≡◌, refl, sym, ap, ◌∙◌, true, Option, none, some, List, [], ◌∷◌, ◌++◌, arith, for_each,
  length, last_of, length-last_of-le, last_of-snoc,
}
use mirrorhub.Traffic.{Access, Persisted, Recorder, stamped, record_access, new, load, save}

abbrev pub note : ℕ × Access → Recorder → Recorder
note (now, a) r = record_access now a r

-- The requests of a history with their times.
abbrev pub log : List (ℕ × Access) → List Access
log [] = []
log ((now, a) ∷ calls) = stamped now a ∷ log calls

short_last : (xs : List Access) → length xs ≤ 200 → last_of 200 xs ≡ xs
short_last xs h = ground arith

record-recent :
    (now : ℕ) (a : Access) (r : Recorder) (h : List Access)
    → r.recent ≡ last_of 200 h
    → (record_access now a r).recent ≡ last_of 200 (h ++ stamped now a ∷ [])
unfolding record_access
record-recent now a r h e =
    ap (λ (l : List Access). last_of 200 (l ++ stamped now a ∷ [])) e
    ∙ last_of-snoc 200 h (stamped now a) (omega arith)

append_one : (h : List Access) (a : Access) (l : List Access) → (h ++ a ∷ []) ++ l ≡ h ++ a ∷ l
append_one [] a l = refl
append_one (x ∷ h) a l = ap (◌∷◌ x) (append_one h a l)

append_nil : (h : List Access) → h ++ [] ≡ h
append_nil [] = refl
append_nil (x ∷ h) = ap (◌∷◌ x) (append_nil h)

records-recent :
    (calls : List (ℕ × Access)) (r : Recorder) (h : List Access)
    → r.recent ≡ last_of 200 h
    → (for_each note calls r).recent ≡ last_of 200 (h ++ log calls)
unfolding for_each
records-recent [] r h e = e ∙ ap (last_of 200) (sym (append_nil h))
records-recent ((now, a) ∷ calls) r h e =
    records-recent calls (record_access now a r) (h ++ stamped now a ∷ [])
      (record-recent now a r h e)
    ∙ ap (last_of 200) (append_one h (stamped now a) (log calls))

new-short : (stored : Option Persisted) → length (new stored).recent ≤ 200
unfolding new load
new-short none = omega arith
new-short (some p) = ground (arith, length-last_of-le 200 p.recent)

-- From a recorder with whatever the store held, any number of recorded requests leaves the latest
-- 200 of all, in order: those that were loaded, followed by those that were recorded.
pub recent_is_last :
    (stored : Option Persisted) (calls : List (ℕ × Access))
    → (for_each note calls (new stored)).recent ≡ last_of 200 ((new stored).recent ++ log calls)
recent_is_last stored calls =
    let r = new stored in
    records-recent calls r r.recent (sym (short_last r.recent (new-short stored)))

-- A recorder that keeps at most 200 requests and is closed, which marks it as changed and saves it,
-- is found again by the next start: both totals and all its requests.
pub new-save :
    (r : Recorder)
    → length r.recent ≤ 200
    → let r' = new (save (record r { dirty = true })).1 in
      (r'.down ≡ r.down) × (r'.up ≡ r.up) × (r'.recent ≡ r.recent)
unfolding new save load
new-save r h = (refl, refl, ground (arith, short_last r.recent))
