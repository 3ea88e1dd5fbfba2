-- ===== src/Downloader/Worker/Tiling.antt =====
-- What a worker writes: its chunk from the first byte on, without gaps.
use mirrorhub.Base.{
  ℕ, ◌+◌, ◌≡◌, ◌≢◌, Bool, Option, none, some, List, [], ◌∷◌, ◌++◌, ◌==◌, if◌then◌else◌,
}
use mirrorhub.Base.Text.{Text}
use mirrorhub.Errors.{GoError}
use mirrorhub.Downloader.Worker.{
  Answer, Event, wrote, slowed, stalls, succeeded, marked, Chunk, Outcome, finished, Next, again,
  ends, fetch_chunk,
}

-- Where the writes of a log end that follow each other from an offset on; none where they do not.
unfoldable pub end_of : ℕ → List Event → Option ℕ
end_of at [] = some at
end_of at (wrote o n ∷ log) = let rest = end_of (at + n) log in if o == at then rest else none
end_of at (slowed ∷ log) = end_of at log
end_of at (stalls ∷ log) = end_of at log
end_of at (succeeded ∷ log) = end_of at log
end_of at (marked a b ∷ log) = end_of at log

module _ (parse_duration : Text → Option ℕ) where
  module _ (prefetch : Bool) (start end known_size : ℕ) (identity : Text) (auth : Bool) where
    abbrev fetched : Answer → List (ℕ × ℕ) × Option GoError
    fetched answer = fetch_chunk parse_duration prefetch start end known_size identity auth answer

  -- Between two attempts nothing is written.
  IsQuiet : Next → Type 0
  IsQuiet (ends e) = Unit
  IsQuiet (again events) = (at : ℕ) (log : List Event) → end_of at (events ++ log) ≡ end_of at log

  module _ (ch : Chunk) where
    -- The log is without gaps, and whole if the worker finishes.
    abbrev Fits : ℕ → List Event × Outcome → Type 0
    Fits cur r = (end_of cur r.0 ≢ none) × (r.1 ≡ finished → end_of cur r.0 ≡ some (ch.end + 1))
