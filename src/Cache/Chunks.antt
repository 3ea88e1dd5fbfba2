-- ===== src/Cache/Chunks.antt =====
-- cache.go: the marks of downloaded chunks. A mark is stored under a hash of its URL and range.
use mirrorhub.Base.{
  ℕ, ◌+◌, ◌*◌, Bool, not, ◌&&◌, List, [], ◌∷◌, ◌++◌, take, ltb, ◌==◌, if◌then◌else◌, for_each,
}
use mirrorhub.Base.Text.{Text, format_uint, ◌===◌}
use mirrorhub.Base.Assoc.{Assoc, put}
use mirrorhub.Cache.State.{ChunkMark, Manager, Env}

abbrev pub mark_of : Text → ℕ → ℕ → ℕ × ℕ → ChunkMark
mark_of url total now (start, stop) = record {
  url = url;
  total_size = total;
  start = start;
  stop = stop;
  updated_at = now;
}

-- chunkKey: the first 16 bytes of the hash in hexadecimal digits.
unfoldable pub chunk_key : Env → Text → ℕ → ℕ → Text
chunk_key env url start stop =
    take 32 (env.sha256_hex (url ++ (b':' ∷ format_uint start ++ b':' ∷ format_uint stop)))

abbrev pub mark_one : Env → Text → ℕ → ℕ → ℕ × ℕ → Assoc ChunkMark → Assoc ChunkMark
mark_one env url total now range chunks =
    put (chunk_key env url range.0 range.1) (mark_of url total now range) chunks

unfoldable pub mark_chunks : Env → Text → ℕ → List (ℕ × ℕ) → ℕ → Manager → Manager
mark_chunks env url total ranges now m = record m {
  chunks = for_each (mark_one env url total now) ranges m.chunks;
}

abbrev pub hour : ℕ
hour = 3600 * 1000000000

-- A mark of this file that is younger than the limit.
abbrev pub is_usable : Text → ℕ → ℕ → ℕ → ChunkMark → Bool
is_usable url total hours now mark =
    mark.url === url && (mark.total_size == total && not (ltb (mark.updated_at + hours * hour) now))

unfoldable pub usable_ranges : Text → ℕ → ℕ → ℕ → Assoc ChunkMark → List (ℕ × ℕ)
usable_ranges url total hours now [] = []
usable_ranges url total hours now ((k, mark) ∷ chunks) =
    let rest = usable_ranges url total hours now chunks in
    if is_usable url total hours now mark then (mark.start, mark.stop) ∷ rest else rest

-- GetChunks
unfoldable pub get_chunks : Text → ℕ → ℕ → ℕ → Manager → List (ℕ × ℕ)
get_chunks url total hours now m = usable_ranges url total hours now m.chunks

unfoldable pub without_url : Text → Assoc ChunkMark → Assoc ChunkMark
without_url url [] = []
without_url url ((k, mark) ∷ chunks) =
    let rest = without_url url chunks in if mark.url === url then rest else (k, mark) ∷ rest

-- ClearChunks
unfoldable pub clear_chunks : Text → Manager → Manager
clear_chunks url m = record m { chunks = without_url url m.chunks }
