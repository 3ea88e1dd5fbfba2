-- ===== src/Cache/Writing/Clearing.antt =====
-- Clear against the writers: nothing is written between the wipe and the end.
use mirrorhub.Base.{
  ℕ, ◌<◌, ◌≡◌, refl, sym, ap, subst, true, none, some, List, [], ◌∷◌, arith, ltb, leb,
  if◌then◌else◌, for_each, for_each_inv, ℤ, inl, inr, Bool-cases,
}
use mirrorhub.Base.Text.{Text}
use mirrorhub.Base.Assoc.{Assoc, lookup, without, keys, AllEntries, tally}
use mirrorhub.Cache.State.{Entry, Meta, Manager, Env, delete_locked, put_meta, total_size}
use mirrorhub.Cache.Reading.{open_entry, renew_ttl, set_repo_commit}
use mirrorhub.Cache.Evicting.{evict, evict_one, set_max_size, has_key, sort_items, protected_keys}
use mirrorhub.Cache.Writing.{
  Staged, hold_write, release_write, put_stage, put_commit, clear_begin, clear_wipe, clear_end,
}

-- Where a call of Clear stands: not begun, waiting for the writers, or past the wipe.
pub data Phase : Type 0 where
  idle waiting wiped : Phase

pub record System : Type 0 where
  pub cache : Manager
  pub phase : Phase

-- One critical section of a request or of Clear, of which one call runs at a time. A commit and the
-- end of a lease belong to a writer that holds one.
pub data Step (env : Env) : System → System → Type 0 where
  stages :
      (s : System) (key src content_type : Text) (ttl : ℤ) (info : Meta) (now : ℕ)
      → Step env s
          (record s { cache = (put_stage env key src content_type ttl info now s.cache).0 })
  holds :
      (s : System) (m : Manager) → hold_write s.cache ≡ some m → Step env s (record s { cache = m })
  commits :
      (s : System) (p : Staged env) (now : ℕ)
      → 0 < s.cache.writers
      → Step env s (record s { cache = (put_commit env p now s.cache).0 })
  releases :
      (s : System) → 0 < s.cache.writers → Step env s (record s { cache = release_write s.cache })
  opens :
      (s : System) (hint key : Text) (now : ℕ)
      → Step env s (record s { cache = (open_entry env hint key now s.cache).0 })
  deletes : (s : System) (key : Text) → Step env s (record s { cache = delete_locked key s.cache })
  renews :
      (s : System) (key : Text) (ttl : ℤ) (now : ℕ) (m : Manager)
      → renew_ttl key ttl now s.cache ≡ some m
      → Step env s (record s { cache = m })
  marks :
      (s : System) (key commit : Text) (now : ℕ) (m : Manager)
      → set_repo_commit key commit now s.cache ≡ some m
      → Step env s (record s { cache = m })
  resizes :
      (s : System) (bytes : ℕ) → Step env s (record s { cache = set_max_size env bytes s.cache })
  begins :
      (s : System)
      → s.phase ≡ idle
      → Step env s (record { cache = clear_begin s.cache; phase = waiting })
  wipes :
      (s : System)
      → s.phase ≡ waiting
      → s.cache.writers ≡ 0
      → Step env s (record { cache = clear_wipe s.cache; phase = wiped })
  ends :
      (s : System)
      → s.phase ≡ wiped
      → Step env s (record { cache = clear_end s.cache; phase = idle })

pub data Reach (env : Env) (s : System) : System → Type 0 where
  here : Reach env s s
  next : {t u : System} → Reach env s t → Step env t u → Reach env s u

-- What each phase guarantees.
abbrev pub Holds : Phase → Manager → Type 0
Holds idle m = Unit
Holds waiting m = m.clearing ≡ true
Holds wiped m = (m.clearing ≡ true) × (m.writers ≡ 0) × (m.entries ≡ [])

abbrev Covered : List Text → Assoc Entry → Type 0
Covered ks es = AllEntries (λ j _. has_key j ks ≡ true) es

none-Covered : (es : Assoc Entry) → Covered [] es → es ≡ []
none-Covered [] h = refl
none-Covered ((j, e) ∷ es) h = cc

more-Covered : (k : Text) (ks : List Text) (es : Assoc Entry) → Covered ks es → Covered (k ∷ ks) es
more-Covered k ks [] h = tt
more-Covered k ks ((j, e) ∷ es) h = ground (arith, h, more-Covered k ks es)

keys-Covered : (es : Assoc Entry) → Covered (keys es) es
unfolding keys
keys-Covered [] = tt
keys-Covered ((j, e) ∷ es) = (ground arith, more-Covered j (keys es) es (keys-Covered es))

without-Covered :
    (k : Text) (ks : List Text) (es : Assoc Entry) → Covered (k ∷ ks) es → Covered ks (without k es)
unfolding without
without-Covered k ks [] h = tt
without-Covered k ks ((j, e) ∷ es) h = ground (arith, h, without-Covered k ks es)

entries-drop :
    (ks : List Text) (m : Manager)
    → Covered ks m.entries
    → (for_each delete_locked ks m).entries ≡ []
unfolding for_each delete_locked
entries-drop [] m h = none-Covered m.entries h
entries-drop (k ∷ ks) m h = entries-drop ks (delete_locked k m) (without-Covered k ks m.entries h)

-- The flag and the writers, which a deletion leaves alone.
abbrev Locked : Manager → Type 0
Locked m = (m.clearing ≡ true) × (m.writers ≡ 0)

delete-Locked : (k : Text) (m : Manager) → Locked m → Locked (delete_locked k m)
unfolding delete_locked
delete-Locked k m h = h

wipe-Holds : (m : Manager) → m.clearing ≡ true → m.writers ≡ 0 → Holds wiped (clear_wipe m)
unfolding clear_wipe
wipe-Holds m c w =
    let kept = for_each_inv Locked delete_locked delete-Locked (keys m.entries) m (c, w) in
    (kept.0, kept.1, entries-drop (keys m.entries) m (keys-Covered m.entries))

module _ (env : Env) where
  evict_one-clearing :
      (target : ℕ) (ks : List Text) (i : Text × Entry) (s : Manager × ℕ)
      → s.0.clearing ≡ true
      → (evict_one target ks i s).0.clearing ≡ true
  unfolding evict_one delete_locked
  evict_one-clearing target ks (k, e) (m, total) h = ground arith

  evict-clearing :
      (protect : List Text) (m : Manager)
      → m.clearing ≡ true
      → (evict env protect m).clearing ≡ true
  unfolding evict
  evict-clearing protect m h = elim (Bool-cases (leb (total_size m.entries) m.max_size)) [
    | inl b ↦ rw (b, evict) h
    | inr b ↦
        rw (b, evict)
          (for_each_inv (λ (s : Manager × ℕ). s.0.clearing ≡ true) _
            (evict_one-clearing (env.eviction_target (total_size m.entries) m.max_size)
              (protected_keys protect))
            (sort_items m.entries) (m, total_size m.entries) h)
  ]

  evict_empty : (protect : List Text) (m : Manager) → m.entries ≡ [] → evict env protect m ≡ m
  unfolding evict tally
  evict_empty protect m h =
      let fits : leb (total_size m.entries) m.max_size ≡ true = ground (arith, ap total_size h) in
      rw (fits, evict) refl

  stage-Holds :
      (φ : Phase) (key src content_type : Text) (ttl : ℤ) (info : Meta) (now : ℕ) (m : Manager)
      → Holds φ m
      → Holds φ (put_stage env key src content_type ttl info now m).0
  unfolding put_stage hold_write
  stage-Holds idle key src content_type ttl info now m h = tt
  stage-Holds waiting key src content_type ttl info now m h = ground arith
  stage-Holds wiped key src content_type ttl info now m h =
      (ground (arith, h.0), ground (arith, h.0, h.1), ground (arith, h.0, h.2))

  hold-Holds : (φ : Phase) (m m' : Manager) → hold_write m ≡ some m' → Holds φ m → Holds φ m'
  unfolding hold_write
  hold-Holds idle m m' e h = tt
  hold-Holds waiting m m' e h = absurd (ground arith)
  hold-Holds wiped m m' e h = absurd (ground (arith, h.0))

  commit-Holds :
      (φ : Phase) (p : Staged env) (now : ℕ) (m : Manager)
      → 0 < m.writers
      → Holds φ m
      → Holds φ (put_commit env p now m).0
  unfolding put_commit
  commit-Holds idle p now m w h = tt
  commit-Holds waiting p now m w h = ground arith
  commit-Holds wiped p now m w h = absurd (omega (arith, h.1))

  release-Holds : (φ : Phase) (m : Manager) → 0 < m.writers → Holds φ m → Holds φ (release_write m)
  unfolding release_write
  release-Holds idle m w h = tt
  release-Holds waiting m w h = h
  release-Holds wiped m w h = absurd (omega (arith, h.1))

  delete-Holds : (φ : Phase) (key : Text) (m : Manager) → Holds φ m → Holds φ (delete_locked key m)
  unfolding delete_locked without
  delete-Holds idle key m h = tt
  delete-Holds waiting key m h = h
  delete-Holds wiped key m h = (h.0, h.1, ap (without key) h.2)

  lookup_empty : (key : Text) (m : Manager) → m.entries ≡ [] → lookup key m.entries ≡ none
  unfolding lookup
  lookup_empty key m e = ap (lookup key) e

  open-Holds :
      (φ : Phase) (hint key : Text) (now : ℕ) (m : Manager)
      → Holds φ m
      → Holds φ (open_entry env hint key now m).0
  unfolding open_entry delete_locked put_meta
  open-Holds idle hint key now m h = tt
  open-Holds waiting hint key now m h = ground arith
  open-Holds wiped hint key now m h = rw (lookup_empty key m h.2, open_entry) h

  renew-Holds :
      (φ : Phase) (key : Text) (ttl : ℤ) (now : ℕ) (m m' : Manager)
      → renew_ttl key ttl now m ≡ some m'
      → Holds φ m
      → Holds φ m'
  unfolding renew_ttl put_meta
  renew-Holds idle key ttl now m m' e h = tt
  renew-Holds waiting key ttl now m m' e h = ground arith
  renew-Holds wiped key ttl now m m' e h = absurd (ground (arith, e, lookup_empty key m h.2))

  mark-Holds :
      (φ : Phase) (key commit : Text) (now : ℕ) (m m' : Manager)
      → set_repo_commit key commit now m ≡ some m'
      → Holds φ m
      → Holds φ m'
  unfolding set_repo_commit put_meta
  mark-Holds idle key commit now m m' e h = tt
  mark-Holds waiting key commit now m m' e h = ground arith
  mark-Holds wiped key commit now m m' e h = absurd (ground (arith, e, lookup_empty key m h.2))

  resize-Holds :
      (φ : Phase) (bytes : ℕ) (m : Manager) → Holds φ m → Holds φ (set_max_size env bytes m)
  unfolding set_max_size
  resize-Holds idle bytes m h = tt
  resize-Holds waiting bytes m h = evict-clearing [] _ h
  resize-Holds wiped bytes m h =
      let m' = record m { max_size = if ltb bytes 1 then 1 else bytes } in
      subst (Holds wiped) (sym (evict_empty [] m' h.2)) h

  Step-Holds : {s t : System} → Step env s t → Holds s.phase s.cache → Holds t.phase t.cache
  unfolding clear_begin
  Step-Holds (stages s key src content_type ttl info now) h =
      stage-Holds s.phase key src content_type ttl info now s.cache h
  Step-Holds (holds s m e) h = hold-Holds s.phase s.cache m e h
  Step-Holds (commits s p now w) h = commit-Holds s.phase p now s.cache w h
  Step-Holds (releases s w) h = release-Holds s.phase s.cache w h
  Step-Holds (opens s hint key now) h = open-Holds s.phase hint key now s.cache h
  Step-Holds (deletes s key) h = delete-Holds s.phase key s.cache h
  Step-Holds (renews s key ttl now m e) h = renew-Holds s.phase key ttl now s.cache m e h
  Step-Holds (marks s key commit now m e) h = mark-Holds s.phase key commit now s.cache m e h
  Step-Holds (resizes s bytes) h = resize-Holds s.phase bytes s.cache h
  Step-Holds (begins s e) h = refl
  Step-Holds (wipes s e w) h = wipe-Holds s.cache (subst (λ φ. Holds φ s.cache) e h) w
  Step-Holds (ends s e) h = tt

Reach-Holds :
    (env : Env) {s t : System} → Holds s.phase s.cache → Reach env s t → Holds t.phase t.cache
Reach-Holds env h here = h
Reach-Holds env h (next r st) = Step-Holds env st (Reach-Holds env h r)

-- From any cache while no call of Clear runs, however the sections of the requests and of one call of
-- Clear at a time interleave, from the wipe to the end of Clear the index is empty and no writer
-- holds a lease.
pub wiped_stays_empty :
    (env : Env) (m : Manager) {s : System}
    → Reach env (record { cache = m; phase = idle }) s
    → s.phase ≡ wiped
    → (s.cache.entries ≡ []) × (s.cache.writers ≡ 0)
wiped_stays_empty env m {s} r e =
    let h = subst (λ φ. Holds φ s.cache) e (Reach-Holds env tt r) in (h.2, h.1)
