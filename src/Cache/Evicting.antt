-- ===== src/Cache/Evicting.antt =====
-- cache.go: evictLocked, deleting, and purging incomplete entries.
pub mod Sorting
pub mod Loop
pub mod Order
use mirrorhub.Base.{
  ℕ, ◌+◌, ◌-◌, Bool, true, false, not, ◌&&◌, ◌||◌, Option, none, some, List, [], ◌∷◌, ◌++◌, ltb,
  leb, if◌then◌else◌, for_each, length,
}
use mirrorhub.Base.Text.{Text, is_empty, trim_space, ◌===◌}
use mirrorhub.Base.Assoc.{Assoc}
use mirrorhub.Cache.State.{Entry, Manager, Env, delete_locked, total_size, is_incomplete}

-- `sort.Slice(items, … LastAccess.Before …)`; entries of the same time keep their order.
unfoldable pub insert_item : Text → Entry → Assoc Entry → Assoc Entry
insert_item k e [] = (k, e) ∷ []
insert_item k e ((j, f) ∷ items) =
    let rest = insert_item k e items in
    if leb e.last_access f.last_access then (k, e) ∷ (j, f) ∷ items else (j, f) ∷ rest

unfoldable pub sort_items : Assoc Entry → Assoc Entry
unfolding insert_item
sort_items [] = []
sort_items ((k, e) ∷ items) = insert_item k e (sort_items items)

abbrev pub has_key : Text → List Text → Bool
has_key k [] = false
has_key k (x ∷ xs) = x === k || has_key k xs

-- The keys of `protect`.
abbrev pub protected_keys : List Text → List Text
protected_keys [] = []
protected_keys (k ∷ ks) =
    let rest = protected_keys ks in let k = trim_space k in if is_empty k then rest else k ∷ rest

-- One round of the loop, on the manager and the total. After the round that would break, the
-- total no longer changes, so no later round changes anything.
unfoldable pub evict_one : ℕ → List Text → Text × Entry → Manager × ℕ → Manager × ℕ
evict_one target keep_keys (k, e) (m, total) =
    if leb total target
    then (m, total)
    else if has_key k keep_keys
    then (m, total)
    else (delete_locked k m, total - e.size)

-- evictLocked
unfoldable pub evict : Env → List Text → Manager → Manager
evict env protect m =
    let total = total_size m.entries in
    if leb total m.max_size
    then m
    else (for_each (evict_one (env.eviction_target total m.max_size) (protected_keys protect))
        (sort_items m.entries) (m, total)).0

-- SetMaxSizeGB, of a limit in bytes.
unfoldable pub set_max_size : Env → ℕ → Manager → Manager
set_max_size env bytes m = evict env [] (record m { max_size = if ltb bytes 1 then 1 else bytes })

abbrev incomplete_keys : Assoc Entry → List Text
incomplete_keys [] = []
incomplete_keys ((k, e) ∷ items) =
    let rest = incomplete_keys items in
    if is_incomplete e then (if is_empty e.key then k else e.key) ∷ rest else rest

-- PurgeIncomplete, with the number of keys.
unfoldable pub purge_incomplete : Manager → Manager × ℕ
purge_incomplete m = let ks = incomplete_keys m.entries in (for_each delete_locked ks m, length ks)

-- List: the entries, latest access first.
unfoldable pub insert_latest : Entry → List Entry → List Entry
insert_latest e [] = e ∷ []
insert_latest e (f ∷ es) =
    let rest = insert_latest e es in
    if leb f.last_access e.last_access then e ∷ f ∷ es else f ∷ rest

unfoldable pub listed : Assoc Entry → List Entry
unfolding insert_latest
listed [] = []
listed ((_, e) ∷ items) = insert_latest e (listed items)
