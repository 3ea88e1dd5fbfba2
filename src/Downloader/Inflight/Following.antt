-- ===== src/Downloader/Inflight/Following.antt =====
-- backend/internal/downloader: what a request makes of the download that it waited for, in
-- downloader.go and serve.go, and the second download after changed content, in download.go.
use mirrorhub.Base.{
  ℕ, zero, suc, ◌≡◌, refl, Bool, true, false, if◌then◌else◌, ◌⊎◌, inl, inr, Option, none, some,
  List, [], ◌∷◌, ◌++◌, ◌≤◌, ltb, length, arith,
}
use mirrorhub.Base.Text.{Text, codes, is_empty, trim_space}
use mirrorhub.Cache.State.{Entry}
use mirrorhub.Errors.{GoError, other, Class-discrete, content_changed, class_of, wrap_classified}
use mirrorhub.Downloader.Inflight.{Result}

-- A download fails with an error, or it has stored an entry.
abbrev pub Ending : Type 0
Ending = GoError ⊎ Entry

abbrev pub error_of : Text → Ending
error_of msg = inl (other msg none)

-- What the leader writes for its followers.
unfoldable pub recorded : Ending → Result
recorded (inl e) = record { err = some e; entry = none }
recorded (inr e) = record { err = none; entry = some e }

-- getOrDownload behind `<-sw.done`: `got` is what the cache answers. None is a second try.
abbrev pub follow_entry : Bool → Option Entry → Option Entry → Option Ending
follow_entry retry (some e) got = some (inr e)
follow_entry retry none (some e) = some (inr e)
follow_entry retry none none =
    if retry then none else some (error_of (codes "download finished but cache miss"))

unfoldable pub follow_fetch : Bool → Result → Option Entry → Option Ending
follow_fetch retry r got = elim r.err [
  | none ↦ follow_entry retry r.entry got
  | some e ↦ some (inl e)
]

-- What a try meets: the cache has the entry, the request leads, its context ends while it waits, or
-- it follows.
pub data FetchTry : Type 0 where
  hits : Entry → FetchTry
  leads : Ending → FetchTry
  gives_up : GoError → FetchTry
  follows : Result → Option Entry → FetchTry

unfoldable pub fetch_once : Bool → FetchTry → Option Ending
fetch_once retry (hits e) = some (inr e)
fetch_once retry (leads o) = some o
fetch_once retry (gives_up e) = some (inl e)
fetch_once retry (follows r got) = follow_fetch retry r got

-- getOrDownload; the second try makes no third.
unfoldable pub get_or_download : FetchTry → FetchTry → Option Ending
get_or_download first second = elim (fetch_once true first) [
  | none ↦ fetch_once false second
  | some o ↦ some o
]

-- What an interactive request ends with: a cached file, its own download, or an error.
pub data Served : Type 0 where
  cached : Entry → Text → Served
  streamed : Entry → Served
  fails : GoError → Served

-- servePackageOnce: `opened` and `reopened` are what Open answers behind `<-sw.done`, and what it
-- answers in ServeCachedEntry.
pub data ServeTry : Type 0 where
  leads : Ending → ServeTry
  gives_up : GoError → ServeTry
  follows : Result → Option (Entry × Text) → Option (Entry × Text) → ServeTry

abbrev pub reopen : Option (Entry × Text) → Served
reopen none = fails (other (codes "cache open miss") none)
reopen (some (e, content)) = cached e content

abbrev pub follow_result : Result → Option (Entry × Text) → Option Served
follow_result r reopened = elim r.err [
  | some e ↦ none
  | none ↦ elim r.entry [
    | none ↦ none
    | some e ↦ if is_empty (trim_space e.key) then none else some (reopen reopened)
  ]
]

unfoldable pub serve_once : ServeTry → Option Served
serve_once (leads (inl e)) = some (fails e)
serve_once (leads (inr e)) = some (streamed e)
serve_once (gives_up e) = some (fails e)
serve_once (follows r (some (e, content)) reopened) = some (cached e content)
serve_once (follows r none reopened) = follow_result r reopened

-- The loop of ServePackage with `n` tries left; `tries` says what each of them meets.
unfoldable pub serve_tries : ℕ → List ServeTry → Served
serve_tries zero tries = fails (other (codes "unable to acquire download slot") none)
serve_tries (suc n) [] = fails (other (codes "unable to acquire download slot") none)
serve_tries (suc n) (t ∷ tries) =
    let rest = serve_tries n tries in elim (serve_once t) [ none ↦ rest | some s ↦ s ]

unfoldable pub serve_package : Option (Entry × Text) → List ServeTry → Served
serve_package (some (e, content)) tries = cached e content
serve_package none tries = serve_tries 3 tries

module _ (parse_duration : Text → Option ℕ) where
  abbrev pub wrap_ending : Ending → Ending
  wrap_ending (inl e) = inl (wrap_classified parse_duration e false)
  wrap_ending (inr e) = inr e

  -- The loop of download: content that has changed on the way is fetched once more, by `again`, and
  -- before that what is there of it is wiped. The number counts the wipes.
  unfoldable pub download_loop : Ending → Ending → Ending × ℕ
  download_loop (inr e) again = (inr e, 0)
  download_loop (inl e) again =
      elim (Class-discrete (class_of parse_duration (some e)) content_changed) [
        | no _ ↦ (wrap_ending (inl e), 0)
        | yes _ ↦ (wrap_ending again, 1)
      ]

-- Others' downloads that have failed, and of which the cache has nothing.
abbrev pub failed_tries : List GoError → List ServeTry
failed_tries [] = []
failed_tries (e ∷ es) = ServeTry.follows (recorded (inl e)) none none ∷ failed_tries es

abbrev pub own_result : Ending → Served
own_result (inl e) = fails e
own_result (inr e) = streamed e

-- A prefetching request that waited for a download ends as that download did, with its entry or
-- with its error, also where the download was stopped; it makes no second try.
pub shared_ending :
    (o : Ending) (got : Option Entry) (second : FetchTry)
    → get_or_download (FetchTry.follows (recorded o) got) second ≡ some o
unfolding get_or_download fetch_once follow_fetch recorded
shared_ending (inl e) got second = refl
shared_ending (inr e) got second = refl

-- An interactive request finds nothing in the cache and waits for others' downloads, which fail and
-- leave the cache without the file: before its third try is over it leads, if it is let, and ends as
-- its own download does; after three failed downloads of others it ends with the error that says so.
pub serve_takes_over :
    (es : List GoError) (o : Ending) (later : List ServeTry)
    → length es ≤ 3
    → serve_package none (failed_tries es ++ ServeTry.leads o ∷ later) ≡ (
        if ltb (length es) 3
        then own_result o
        else fails (other (codes "unable to acquire download slot") none))
unfolding serve_package serve_tries serve_once recorded
serve_takes_over [] (inl x) later h = refl
serve_takes_over [] (inr x) later h = refl
serve_takes_over (e ∷ []) (inl x) later h = refl
serve_takes_over (e ∷ []) (inr x) later h = refl
serve_takes_over (e ∷ f ∷ []) (inl x) later h = refl
serve_takes_over (e ∷ f ∷ []) (inr x) later h = refl
serve_takes_over (e ∷ f ∷ g ∷ []) o later h = refl
serve_takes_over (e ∷ f ∷ g ∷ k ∷ es) o later h = absurd (omega arith)
