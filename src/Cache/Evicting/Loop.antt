-- ===== src/Cache/Evicting/Loop.antt =====
-- What the loop of an eviction removes, keeps and counts.
use mirrorhub.Base.{
  ℕ, ◌-◌, ◌≤◌, ◌<◌, ◌≡◌, refl, sym, ap, subst, ◌∙◌, ◌⊎◌, ◌≢◌, true, false, Option, none, some, List,
  [], ◌∷◌, arith, leb, for_each, inl, inr, Bool-cases, Option-cases,
}
use mirrorhub.Base.Text.{Text, text_dec}
use mirrorhub.Base.Assoc.{
  Assoc, lookup, Distinct, lookup-without, tally-without, without-Distinct, lookup-AllEntries,
}
use mirrorhub.Cache.State.{Entry, Manager, delete_locked, total_size}
use mirrorhub.Cache.Evicting.{has_key, evict_one}
use mirrorhub.Cache.Evicting.Sorting.{Ascending, lookup-delete_locked, Agrees, Agrees-delete}

-- Deleting an entry leaves every file but its own.
file-delete_locked :
    (k f : Text) (m : Manager)
    → ((y : Entry) → lookup k m.entries ≡ some y → y.file_path ≢ f)
    → lookup f (delete_locked k m).files ≡ lookup f m.files
unfolding delete_locked
file-delete_locked k f m h = elim (Option-cases (lookup k m.entries)) [
  | inl e ↦ rw (e, delete_locked) refl
  | inr (y, e) ↦ rw (e, delete_locked) (ground (arith, h y e, lookup-without y.file_path f m.files))
]

module _ (target : ℕ) (ks : List Text) where
  abbrev pub evict_loop : Assoc Entry → Manager × ℕ → Manager × ℕ
  evict_loop items s = for_each (evict_one target ks) items s

  -- A round keeps the state, because there is room or the key is protected, or it deletes.
  pub evict_one-cases :
      (k : Text) (e : Entry) (m : Manager) (total : ℕ)
      → ((evict_one target ks (k, e) (m, total) ≡ (m, total))
          × ((total ≤ target) ⊎ (has_key k ks ≡ true)))
        ⊎ ((evict_one target ks (k, e) (m, total) ≡ (delete_locked k m, total - e.size))
            × (target < total)
            × (has_key k ks ≡ false))
  unfolding evict_one
  evict_one-cases k e m total = elim (Bool-cases (leb total target)) [
    | inl b ↦ inl (rw (b, evict_one) refl, inl (ground arith))
    | inr b ↦ elim (Bool-cases (has_key k ks)) [
      | inl h ↦ inl (rw (b, h, evict_one) refl, inr h)
      | inr h ↦ inr (rw (b, h, evict_one) refl, ground arith, h)
    ]
  ]

  -- Deleting another key changes nothing at `j`.
  pub lookup-delete_other :
      (k j : Text) (m : Manager)
      → has_key k ks ≡ false
      → has_key j ks ≡ true
      → lookup j (delete_locked k m).entries ≡ lookup j m.entries
  lookup-delete_other k j m free p = elim (text_dec k j) [
    | yes same ↦ cc
    | no other ↦ ground (arith, lookup-delete_locked k j m)
  ]

  -- What the loop leaves at `j`, and the total that it is left with.
  abbrev pub left_at : Text → Assoc Entry → Manager × ℕ → Option Entry
  left_at j items s = lookup j (evict_loop items s).0.entries

  abbrev pub left_total : Assoc Entry → Manager × ℕ → ℕ
  left_total items s = (evict_loop items s).1

  -- A protected entry stays.
  pub protected_stays :
      (j : Text) (items : Assoc Entry) (m : Manager) (total : ℕ)
      → has_key j ks ≡ true
      → left_at j items (m, total) ≡ lookup j m.entries
  unfolding for_each
  protected_stays j [] m total p = refl
  protected_stays j ((k, e) ∷ items) m total p = elim (evict_one-cases k e m total) [
    | inl (eq, _) ↦ ap (left_at j items) eq ∙ protected_stays j items m total p
    | inr (eq, _, free) ↦
        ap (left_at j items) eq
        ∙ (protected_stays j items (delete_locked k m) (total - e.size) p
            ∙ lookup-delete_other k j m free p)
  ]

  -- Nothing comes back.
  pub only_removes :
      (j : Text) (items : Assoc Entry) (m : Manager) (total : ℕ)
      → lookup j m.entries ≡ none
      → left_at j items (m, total) ≡ none
  unfolding for_each
  only_removes j [] m total n = n
  only_removes j ((k, e) ∷ items) m total n = elim (evict_one-cases k e m total) [
    | inl (eq, _) ↦ ap (left_at j items) eq ∙ only_removes j items m total n
    | inr (eq, _, _) ↦
        ap (left_at j items) eq
        ∙ only_removes j items (delete_locked k m) (total - e.size)
            (ground (arith, lookup-delete_locked k j m))
  ]

  -- Once there is room, nothing more is removed.
  pub room_stays :
      (items : Assoc Entry) (m : Manager) (total : ℕ)
      → total ≤ target
      → evict_loop items (m, total) ≡ (m, total)
  unfolding for_each
  room_stays [] m total h = refl
  room_stays ((k, e) ∷ items) m total h = elim (evict_one-cases k e m total) [
    | inl (eq, _) ↦ ap (evict_loop items) eq ∙ room_stays items m total h
    | inr (eq, over, _) ↦ absurd (omega arith)
  ]

  -- Without enough room in the end, every listed entry that is not protected is gone.
  pub no_room-removed :
      (j : Text) (y : Entry) (items : Assoc Entry) (m : Manager) (total : ℕ)
      → target < left_total items (m, total)
      → has_key j ks ≡ false
      → lookup j items ≡ some y
      → left_at j items (m, total) ≡ none
  unfolding for_each lookup
  no_room-removed j y [] m total over free e = cc
  no_room-removed j y ((k, x) ∷ items) m total over free e = elim (evict_one-cases k x m total) [
    | inl (eq, inl room) ↦
        let same : left_total ((k, x) ∷ items) (m, total) ≡ total =
          ap (λ (s : Manager × ℕ). s.1) (room_stays ((k, x) ∷ items) m total room) in
        absurd (omega arith)
    | inl (eq, inr p) ↦
        let same = ap (left_total items) eq in
        ap (left_at j items) eq
        ∙ no_room-removed j y items m total (omega (arith, same)) free (ground (arith, e, p))
    | inr (eq, _, _) ↦
        let same = ap (left_total items) eq in
        let m' = delete_locked k m in
        ap (left_at j items) eq ∙ elim (text_dec k j) [
          | yes here ↦
              only_removes j items m' (total - x.size) (ground (arith, lookup-delete_locked k j m))
          | no there ↦
              no_room-removed j y items m' (total - x.size) (omega (arith, same)) free
                (ground (arith, e))
        ]
  ]

  -- What is removed was used no later than what is kept without protection.
  pub removed_older :
      (k j : Text) (x y : Entry) (items : Assoc Entry) (m : Manager) (total : ℕ)
      → Ascending items
      → lookup k items ≡ some x
      → lookup k m.entries ≡ some x
      → left_at k items (m, total) ≡ none
      → has_key j ks ≡ false
      → lookup j items ≡ some y
      → left_at j items (m, total) ≡ some y
      → x.last_access ≤ y.last_access
  unfolding for_each lookup
  removed_older k j x y [] m total asc ex here gone free ey kept = cc
  removed_older k j x y ((i, z) ∷ items) m total asc ex here gone free ey kept =
      elim (evict_one-cases i z m total) [
        | inl (eq, inl room) ↦
            let same : left_at k ((i, z) ∷ items) (m, total) ≡ lookup k m.entries =
              ap (λ (s : Manager × ℕ). lookup k s.0.entries)
                (room_stays ((i, z) ∷ items) m total room) in
            absurd (ground (arith, same))
        | inl (eq, inr p) ↦
            let gone' = sym (ap (left_at k items) eq) ∙ gone in
            let kept' = sym (ap (left_at j items) eq) ∙ kept in
            elim (text_dec i k) [
              | yes same ↦
                  let p' : has_key k ks ≡ true = cc in
                  absurd (ground (arith, protected_stays k items m total p', gone', here))
              | no other ↦
                  removed_older k j x y items m total asc.1 (ground (arith, ex)) here gone' free
                    (ground (arith, ey, p)) kept'
            ]
        | inr (eq, _, _) ↦
            let m' = delete_locked i m in
            let gone' = sym (ap (left_at k items) eq) ∙ gone in
            let kept' = sym (ap (left_at j items) eq) ∙ kept in
            let ey' : lookup j items ≡ some y = elim (text_dec i j) [
              | yes same ↦
                  let out =
                    only_removes j items m' (total - z.size)
                      (ground (arith, lookup-delete_locked i j m)) in
                  absurd (ground (arith, out, kept'))
              | no other ↦ ground (arith, ey)
            ] in
            elim (text_dec i k) [
              | yes same ↦
                  let older =
                    lookup-AllEntries (λ _ f. z.last_access ≤ f.last_access) j y items asc.0 ey' in
                  ground (arith, ex, older)
              | no other ↦
                  removed_older k j x y items m' (total - z.size) asc.1 (ground (arith, ex))
                    (ground (arith, here, lookup-delete_locked i k m)) gone' free ey' kept'
            ]
      ]

  abbrev pub Exact : Assoc Entry → Manager × ℕ → Type 0
  Exact items s = left_total items s ≡ total_size (evict_loop items s).0.entries

  pub size-delete_locked :
      (k : Text) (e : Entry) (m : Manager)
      → Distinct m.entries
      → lookup k m.entries ≡ some e
      → total_size m.entries - e.size ≡ total_size (delete_locked k m).entries
  unfolding delete_locked
  size-delete_locked k e m d h = omega (arith, tally-without Entry.size k e m.entries d h)

  -- The total of the loop is the size of what is left.
  pub total-Exact :
      (items : Assoc Entry) (m : Manager) (total : ℕ)
      → total ≡ total_size m.entries
      → Distinct items
      → Distinct m.entries
      → Agrees items m
      → Exact items (m, total)
  unfolding for_each delete_locked
  total-Exact [] m total e d dm h = e
  total-Exact ((k, x) ∷ items) m total e d dm h = elim (evict_one-cases k x m total) [
    | inl (eq, _) ↦ subst (Exact items) (sym eq) (total-Exact items m total e d.1 dm h.1)
    | inr (eq, _, _) ↦ subst (Exact items) (sym eq) (
        total-Exact items (delete_locked k m) (total - x.size)
          (ap (λ (n : ℕ). n - x.size) e ∙ size-delete_locked k x m dm h.0) d.1
          (without-Distinct k m.entries dm) (Agrees-delete k items m d.0 h.1))
  ]

  -- A file stays if no unprotected entry has it.
  pub file_stays :
      (f : Text) (items : Assoc Entry) (m : Manager) (total : ℕ)
      → ((j : Text) (y : Entry)
          → lookup j m.entries ≡ some y
          → has_key j ks ≡ false
          → y.file_path ≢ f)
      → lookup f (evict_loop items (m, total)).0.files ≡ lookup f m.files
  unfolding for_each
  file_stays f [] m total h = refl
  file_stays f ((k, x) ∷ items) m total h = elim (evict_one-cases k x m total) [
    | inl (eq, _) ↦
        ap (λ (s : Manager × ℕ). lookup f (evict_loop items s).0.files) eq
        ∙ file_stays f items m total h
    | inr (eq, _, free) ↦
        ap (λ (s : Manager × ℕ). lookup f (evict_loop items s).0.files) eq
        ∙ (file_stays f items (delete_locked k m) (total - x.size)
              (λ j y e. h j y (ground (arith, e, lookup-delete_locked k j m)))
            ∙ file-delete_locked k f m (λ y e. h k y e free))
  ]
