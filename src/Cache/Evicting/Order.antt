-- ===== src/Cache/Evicting/Order.antt =====
-- What an eviction removes, and how much room it makes.
use mirrorhub.Base.{
  ℕ, ◌≤◌, ◌<◌, ◌≡◌, refl, sym, ap, subst, ◌∙◌, ◌⊎◌, ◌≢◌, true, false, none, some, List, arith, leb,
  inl, inr, Bool-cases, Option-cases,
}
use mirrorhub.Base.Text.{Text}
use mirrorhub.Base.Assoc.{lookup, Distinct}
use mirrorhub.Cache.State.{Entry, Manager, Env, total_size}
use mirrorhub.Cache.Evicting.{sort_items, has_key, protected_keys, evict}
use mirrorhub.Cache.Evicting.Sorting.{
  Agrees, lookup-AllSome, sort_items-Distinct, sort_items-Ascending, lookup-sort_items,
}
use mirrorhub.Cache.Evicting.Loop.{
  evict_loop, left_at, protected_stays, only_removes, no_room-removed, removed_older, total-Exact,
  file_stays,
}

sort_items-Agrees : (m : Manager) → Distinct m.entries → Agrees (sort_items m.entries) m
sort_items-Agrees m d =
    lookup-AllSome (sort_items m.entries) m (sort_items-Distinct m.entries d)
      (λ k e h. sym (lookup-sort_items k m.entries d) ∙ h)

module _ (env : Env) (protect : List Text) (m : Manager) where
  abbrev target_of : ℕ
  target_of = env.eviction_target (total_size m.entries) m.max_size

  abbrev evicted : Manager × ℕ
  evicted =
      evict_loop target_of (protected_keys protect) (sort_items m.entries) (m, total_size m.entries)

  -- Either nothing was to be done, or the loop ran.
  evict-cases :
      ((total_size m.entries ≤ m.max_size) × (evict env protect m ≡ m))
      ⊎ (evict env protect m ≡ evicted.0)
  unfolding evict
  evict-cases = elim (Bool-cases (leb (total_size m.entries) m.max_size)) [
    | inl b ↦ inl (ground arith, rw (b, evict) refl)
    | inr b ↦ inr (rw (b, evict) refl)
  ]

-- If the keys of the index are distinct and the target of an eviction is at most the limit, then
-- after an eviction the entries fit the limit, unless every entry that is left is protected.
pub evict_makes_room :
    (env : Env) (protect : List Text) (m : Manager) (k : Text) (e : Entry)
    → Distinct m.entries
    → env.eviction_target (total_size m.entries) m.max_size ≤ m.max_size
    → m.max_size < total_size (evict env protect m).entries
    → lookup k (evict env protect m).entries ≡ some e
    → has_key k (protected_keys protect) ≡ true
evict_makes_room env protect m k e d fits over here =
    let ks = protected_keys protect in
    let items = sort_items m.entries in
    let total = total_size m.entries in
    let t = target_of env protect m in
    elim (evict-cases env protect m) [
      | inl (roomy, eq) ↦
          absurd (omega (arith, subst (λ (n : Manager). m.max_size < total_size n.entries) eq over))
      | inr eq ↦ elim (Bool-cases (has_key k ks)) [
        | inl p ↦ p
        | inr free ↦
            let over' = subst (λ (n : Manager). m.max_size < total_size n.entries) eq over in
            let here' = subst (λ (n : Manager). lookup k n.entries ≡ some e) eq here in
            let exact =
              total-Exact t ks items m total refl (sort_items-Distinct m.entries d) d
                (sort_items-Agrees m d) in
            let gone : left_at t ks k items (m, total) ≡ none =
              elim (Option-cases (lookup k m.entries)) [
                | inl n ↦ only_removes t ks k items m total n
                | inr (z, ez) ↦
                    no_room-removed t ks k z items m total (omega arith) free
                      (lookup-sort_items k m.entries d ∙ ez)
              ] in
            absurd (ground (arith, here', gone))
      ]
    ]

-- If the keys of the index are distinct, whatever an eviction removes was used no later than any
-- unprotected entry that it keeps, and was not protected itself.
pub evict_oldest_first :
    (env : Env) (protect : List Text) (m : Manager) (k j : Text) (x y : Entry)
    → Distinct m.entries
    → lookup k m.entries ≡ some x
    → lookup k (evict env protect m).entries ≡ none
    → lookup j m.entries ≡ some y
    → lookup j (evict env protect m).entries ≡ some y
    → has_key j (protected_keys protect) ≡ false
    → (x.last_access ≤ y.last_access) × (has_key k (protected_keys protect) ≡ false)
evict_oldest_first env protect m k j x y d ex gone ey kept free =
    let ks = protected_keys protect in
    let items = sort_items m.entries in
    let total = total_size m.entries in
    let t = target_of env protect m in
    elim (evict-cases env protect m) [
      | inl (roomy, eq) ↦
          absurd (ground (arith, subst (λ (n : Manager). lookup k n.entries ≡ none) eq gone, ex))
      | inr eq ↦
          let gone' = subst (λ (n : Manager). lookup k n.entries ≡ none) eq gone in
          let kept' = subst (λ (n : Manager). lookup j n.entries ≡ some y) eq kept in
          (
            removed_older t ks k j x y items m total (sort_items-Ascending m.entries)
                (lookup-sort_items k m.entries d ∙ ex) ex gone' free
                (lookup-sort_items j m.entries d ∙ ey) kept',
            elim (Bool-cases (has_key k ks)) [
              | inl p ↦ absurd (ground (arith, protected_stays t ks k items m total p, gone', ex))
              | inr n ↦ n
            ],
          )
    ]

-- An eviction does not change a protected entry.
pub evict-protected :
    (env : Env) (protect : List Text) (m : Manager) (k : Text)
    → has_key k (protected_keys protect) ≡ true
    → lookup k (evict env protect m).entries ≡ lookup k m.entries
evict-protected env protect m k p = elim (evict-cases env protect m) [
  | inl (_, eq) ↦ ap (λ (n : Manager). lookup k n.entries) eq
  | inr eq ↦
      ap (λ (n : Manager). lookup k n.entries) eq
      ∙ protected_stays (target_of env protect m) (protected_keys protect) k (sort_items m.entries)
          m (total_size m.entries) p
]

-- Nor the file of a protected entry, if no other entry has the same file.
pub evict-file :
    (env : Env) (protect : List Text) (m : Manager) (f : Text)
    → ((j : Text) (y : Entry)
        → lookup j m.entries ≡ some y
        → has_key j (protected_keys protect) ≡ false
        → y.file_path ≢ f)
    → lookup f (evict env protect m).files ≡ lookup f m.files
evict-file env protect m f h = elim (evict-cases env protect m) [
  | inl (_, eq) ↦ ap (λ (n : Manager). lookup f n.files) eq
  | inr eq ↦
      ap (λ (n : Manager). lookup f n.files) eq
      ∙ file_stays (target_of env protect m) (protected_keys protect) f (sort_items m.entries) m
          (total_size m.entries) h
]
