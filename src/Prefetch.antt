-- ===== src/Prefetch.antt =====
-- backend/internal/prefetch/delayed.go, with the queue state of prefetch.go and the lookup of a
-- platform by name and by owner of backend/internal/platform/registry.go: the downloads that the
-- prefetch service puts off. The platforms that register themselves are an argument, `platforms`.
pub mod Deferred
use mirrorhub.Base.{
  ℕ, ◌+◌, ◌*◌, Bool, true, false, not, Option, none, some, List, [], ◌∷◌, ◌++◌, ltb, leb,
  if◌then◌else◌, length, drop, keep,
}
use mirrorhub.Base.Text.{Text, codes, is_empty, to_lower, trim_space, ◌===◌}
use mirrorhub.Scheduler.State.{second}

-- platform.Platform, as far as the queues ask it. `owns` and `priority` are those of a
-- PrefetchExpander, none for a platform that is not one.
pub record Platform : Type 0 where
  pub name : Text
  pub expander : Option (ℕ × (Text → Bool))

pub record DelayedItem : Type 0 where
  pub url : Text
  pub platform : Text
  pub attempt : ℕ
  pub after : ℕ

pub record WaitingItem : Type 0 where
  pub url : Text
  pub platform : Text
  pub attempt : ℕ

pub record ManualItem : Type 0 where
  pub spec : Text
  pub platform : Text

-- The queues of Service.
pub record Service : Type 0 where
  pub manual : List ManualItem
  pub delayed : List DelayedItem
  pub waiting : List WaitingItem

unfoldable pub normalize_prefetch_platform : Text → Text
normalize_prefetch_platform platform =
    let p = to_lower (trim_space platform) in
    if p === codes "hf"
    then codes "huggingface"
    else if p === codes "go"
    then codes "goproxy"
    else p

abbrev pub delayed_backoff : List ℕ
delayed_backoff = 5 * second ∷ 15 * second ∷ 45 * second ∷ 90 * second ∷ 180 * second ∷ []

-- `delayedBackoff[attempt]`, which the code reads only within the bounds.
abbrev first : List ℕ → ℕ
first [] = 0
first (x ∷ _) = x

abbrev pub backoff : ℕ → ℕ
backoff attempt = first (drop attempt delayed_backoff)

abbrev pub other_url : Text → WaitingItem → Bool
other_url url w = not (w.url === url)

abbrev pub is_delayed : Text → List DelayedItem → Bool
is_delayed url [] = false
is_delayed url (d ∷ ds) = if d.url === url then true else is_delayed url ds

abbrev pub is_waiting : Text → List WaitingItem → Bool
is_waiting url [] = false
is_waiting url (w ∷ ws) = if w.url === url then true else is_waiting url ws

abbrev pub delayed_item : Text → Text → ℕ → ℕ → DelayedItem
delayed_item url platform attempt now = record {
  url = url;
  platform = platform;
  attempt = attempt;
  after = now + backoff attempt;
}

abbrev pub waiting_item : Text → Text → ℕ → WaitingItem
waiting_item url platform attempt = record { url = url; platform = platform; attempt = attempt }

unfoldable pub enqueue_delayed : Text → Text → ℕ → ℕ → Service → Service
enqueue_delayed url platform attempt now s =
    if leb (length delayed_backoff) attempt
    then s
    else let s = record s { waiting = keep (other_url url) s.waiting } in
      if is_delayed url s.delayed
      then s
      else record s { delayed = s.delayed ++ delayed_item url platform attempt now ∷ [] }

unfoldable pub enqueue_waiting : Text → Text → ℕ → Service → Service
enqueue_waiting url platform attempt s =
    if is_delayed url s.delayed
    then s
    else if is_waiting url s.waiting
    then s
    else record s { waiting = s.waiting ++ waiting_item url platform attempt ∷ [] }

abbrev pub is_ready : ℕ → DelayedItem → Bool
is_ready now d = not (ltb now d.after)

abbrev pub is_early : ℕ → DelayedItem → Bool
is_early now d = ltb now d.after

-- The locked part of drainDelayed, with the items that are then started.
unfoldable pub drain_delayed : ℕ → Service → Service × List DelayedItem
drain_delayed now s =
    (record s { delayed = keep (is_early now) s.delayed }, keep (is_ready now) s.delayed)

-- The locked part of drainWaiting, with the items that are then started.
unfoldable pub drain_waiting : Service → Service × List WaitingItem
drain_waiting s = (record s { waiting = [] }, s.waiting)

-- PrefetchExpanders: a stable sort by descending priority.
abbrev pub insert_expander :
    ℕ → (Text → Bool) → Text → List (ℕ × (Text → Bool) × Text) → List (ℕ × (Text → Bool) × Text)
insert_expander n owns name [] = (n, owns, name) ∷ []
insert_expander n owns name ((m, o, name') ∷ es) =
    let rest = insert_expander n owns name es in
    if leb m n then (n, owns, name) ∷ (m, o, name') ∷ es else (m, o, name') ∷ rest

abbrev pub prefetch_expanders : List Platform → List (ℕ × (Text → Bool) × Text)
prefetch_expanders [] = []
prefetch_expanders (p ∷ ps) =
    let rest = prefetch_expanders ps in
    elim p.expander [ none ↦ rest | some e ↦ insert_expander e.0 e.1 p.name rest ]

abbrev first_owner : Text → List (ℕ × (Text → Bool) × Text) → Option Text
first_owner item [] = none
first_owner item ((_, owns, name) ∷ es) = if owns item then some name else first_owner item es

-- LookupPrefetchOwner, with the name of the platform.
unfoldable pub lookup_prefetch_owner : List Platform → Text → Option Text
lookup_prefetch_owner platforms item = first_owner item (prefetch_expanders platforms)

unfoldable pub platform_name_for_item : List Platform → Text → Text
platform_name_for_item platforms item = elim (lookup_prefetch_owner platforms item) [
  | none ↦ codes "unknown"
  | some name ↦ name
]

-- The name that the clearing loops compare: the item's own, or else that of resolvePlatform
-- without a hint.
abbrev pub item_name : List Platform → Text → Text → Text
item_name platforms platform url =
    if is_empty platform then platform_name_for_item platforms url else platform

abbrev pub delayed_of : List Platform → Text → DelayedItem → Bool
delayed_of platforms platform d = item_name platforms d.platform d.url === platform

abbrev pub waiting_of : List Platform → Text → WaitingItem → Bool
waiting_of platforms platform w = item_name platforms w.platform w.url === platform

abbrev pub manual_of : List Platform → Text → ManualItem → Bool
manual_of platforms platform m = item_name platforms m.platform m.spec === platform

unfoldable pub clear_delayed : List Platform → Text → Service → Service
clear_delayed platforms platform s =
    if is_empty platform
    then record s { delayed = [] }
    else record s { delayed = keep (λ d. not (delayed_of platforms platform d)) s.delayed }

unfoldable pub clear_waiting : List Platform → Text → Service → Service
clear_waiting platforms platform s =
    if is_empty platform
    then record s { waiting = [] }
    else record s { waiting = keep (λ w. not (waiting_of platforms platform w)) s.waiting }

unfoldable pub clear_manual : List Platform → Text → Service → Service
clear_manual platforms platform s =
    if is_empty platform
    then record s { manual = [] }
    else record s { manual = keep (λ m. not (manual_of platforms platform m)) s.manual }

-- ClearDeferredMatching
unfoldable pub clear_deferred : List Platform → Text → Service → Service
clear_deferred platforms platform s =
    let p = normalize_prefetch_platform platform in
    clear_waiting platforms p (clear_delayed platforms p s)

-- The locked part of EnqueuePlatform.
abbrev manual_items : Text → List Text → List ManualItem
manual_items platform [] = []
manual_items platform (it ∷ items) =
    let rest = manual_items platform items in
    let it = trim_space it in
    if is_empty it then rest else record { spec = it; platform = platform } ∷ rest

unfoldable pub enqueue_platform : List Text → Text → Service → Service
enqueue_platform items platform s = record s {
  manual = s.manual ++ manual_items (normalize_prefetch_platform platform) items;
}
