-- ===== src/Cache/Evicting/Sorting.antt =====
-- The sorted items of an eviction are the entries of the index, the oldest access first.
use mirrorhub.Base.{
  ℕ, ◌≤◌, ◌≡◌, refl, ◌∙◌, none, some, [], ◌∷◌, arith, leb, if◌then◌else◌, inl, inr, Bool-cases,
}
use mirrorhub.Base.Text.{Text, ◌===◌}
use mirrorhub.Base.Assoc.{Assoc, lookup, AllEntries, Distinct, lookup-without}
use mirrorhub.Cache.State.{Entry, Manager, delete_locked}
use mirrorhub.Cache.Evicting.{insert_item, sort_items}

pub lookup-insert_item :
    (k j : Text) (e : Entry) (items : Assoc Entry)
    → lookup k items ≡ none
    → lookup j (insert_item k e items) ≡ (if k === j then some e else lookup j items)
unfolding lookup insert_item
lookup-insert_item k j e [] n = refl
lookup-insert_item k j e ((i, f) ∷ items) n = ground (arith, lookup-insert_item k j e items)

pub lookup-sort_items :
    (j : Text) (items : Assoc Entry) → Distinct items → lookup j (sort_items items) ≡ lookup j items
unfolding lookup sort_items
lookup-sort_items j [] d = refl
lookup-sort_items j ((k, e) ∷ items) d = ground (
  arith,
  lookup-sort_items j items d.1,
  lookup-sort_items k items d.1,
  lookup-insert_item k j e (sort_items items),
)

abbrev pub Ascending : Assoc Entry → Type 0
Ascending [] = Unit
Ascending ((_, e) ∷ items) =
    AllEntries (λ _ f. e.last_access ≤ f.last_access) items × Ascending items

pub insert_item-AllEntries :
    (n : ℕ) (k : Text) (e : Entry) (items : Assoc Entry)
    → n ≤ e.last_access
    → AllEntries (λ _ f. n ≤ f.last_access) items
    → AllEntries (λ _ f. n ≤ f.last_access) (insert_item k e items)
unfolding insert_item
insert_item-AllEntries n k e [] p h = (p, tt)
insert_item-AllEntries n k e ((j, f) ∷ items) p h =
    ground (arith, insert_item-AllEntries n k e items p h.1)

pub AllEntries-le :
    (m n : ℕ) (items : Assoc Entry)
    → m ≤ n
    → AllEntries (λ _ f. n ≤ f.last_access) items
    → AllEntries (λ _ f. m ≤ f.last_access) items
AllEntries-le m n [] p h = tt
AllEntries-le m n ((j, f) ∷ items) p h = (omega arith, AllEntries-le m n items p h.1)

pub insert_item-Ascending :
    (k : Text) (e : Entry) (items : Assoc Entry)
    → Ascending items
    → Ascending (insert_item k e items)
unfolding insert_item
insert_item-Ascending k e [] h = (tt, tt)
insert_item-Ascending k e ((j, f) ∷ items) h = elim (Bool-cases (leb e.last_access f.last_access)) [
  | inl b ↦
      let p : e.last_access ≤ f.last_access = ground arith in
      rw (b, insert_item) ((p, AllEntries-le _ _ items p h.0), h)
  | inr b ↦
      rw (b, insert_item)
        (
          insert_item-AllEntries f.last_access k e items (ground arith) h.0,
          insert_item-Ascending k e items h.1,
        )
]

pub sort_items-Ascending : (items : Assoc Entry) → Ascending (sort_items items)
unfolding sort_items
sort_items-Ascending [] = tt
sort_items-Ascending ((k, e) ∷ items) =
    insert_item-Ascending k e (sort_items items) (sort_items-Ascending items)

pub insert_item-Distinct :
    (k : Text) (e : Entry) (items : Assoc Entry)
    → lookup k items ≡ none
    → Distinct items
    → Distinct (insert_item k e items)
unfolding lookup insert_item
insert_item-Distinct k e [] n d = (refl, tt)
insert_item-Distinct k e ((j, f) ∷ items) n d =
    ground (arith, insert_item-Distinct k e items, lookup-insert_item k j e items)

pub sort_items-Distinct : (items : Assoc Entry) → Distinct items → Distinct (sort_items items)
unfolding sort_items
sort_items-Distinct [] d = tt
sort_items-Distinct ((k, e) ∷ items) d =
    insert_item-Distinct k e (sort_items items) (lookup-sort_items k items d.1 ∙ d.0)
      (sort_items-Distinct items d.1)

pub lookup-delete_locked :
    (k j : Text) (m : Manager)
    → lookup j (delete_locked k m).entries ≡ (if k === j then none else lookup j m.entries)
unfolding delete_locked
lookup-delete_locked k j m = lookup-without k j m.entries

-- `items` are entries of the state.
abbrev pub Agrees : Assoc Entry → Manager → Type 0
Agrees items m = AllEntries (λ k e. lookup k m.entries ≡ some e) items

pub Agrees-delete :
    (k : Text) (items : Assoc Entry) (m : Manager)
    → lookup k items ≡ none
    → Agrees items m
    → Agrees items (delete_locked k m)
unfolding lookup
Agrees-delete k [] m n h = tt
Agrees-delete k ((j, e) ∷ items) m n h =
    ground (arith, Agrees-delete k items m, lookup-delete_locked k j m)

pub lookup-AllSome :
    (items : Assoc Entry) (m : Manager)
    → Distinct items
    → ((k : Text) (e : Entry) → lookup k items ≡ some e → lookup k m.entries ≡ some e)
    → Agrees items m
unfolding lookup
lookup-AllSome [] m d h = tt
lookup-AllSome ((k, e) ∷ items) m d h =
    (h k e (ground arith), lookup-AllSome items m d.1 (λ j f p. h j f (ground (arith, d.0, p))))
