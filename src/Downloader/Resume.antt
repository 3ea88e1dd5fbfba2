-- ===== src/Downloader/Resume.antt =====
-- A download that is taken up again: what the cache has marked is what the plan leaves out.
use mirrorhub.Base.{
  ℕ, ◌+◌, ◌*◌, ◌≡◌, refl, false, not, ◌&&◌, none, [], ◌∷◌, arith, ltb, ◌==◌, if◌then◌else◌,
  for_each,
}
use mirrorhub.Base.Text.{Text, ◌===◌, text_dec}
use mirrorhub.Base.Assoc.{Assoc, put, lookup, Distinct, AllEntries, put-Distinct, put-AllEntries}
use mirrorhub.Cache.State.{Manager, Env, ChunkMark}
use mirrorhub.Cache.Chunks.{
  chunk_key, mark_chunks, mark_one, mark_of, get_chunks, usable_ranges, hour,
}
use mirrorhub.Downloader.Plan.{is_done, same_range}

-- No key stands twice, and every mark stands under the key of its range and URL.
abbrev pub IsKeyed : Env → Assoc ChunkMark → Type 0
IsKeyed env chunks =
    Distinct chunks × AllEntries (λ k mark. k ≡ chunk_key env mark.url mark.start mark.stop) chunks

-- What stands under the key of a range is a mark of that range: the hash does not collide.
abbrev pub IsApart : Env → Text → ℕ × ℕ → Assoc ChunkMark → Type 0
IsApart env url r chunks =
    AllEntries
      (λ k mark.
        k ≡ chunk_key env url r.0 r.1 → (mark.url ≡ url) × (mark.start ≡ r.0) × (mark.stop ≡ r.1))
      chunks

module _ (env : Env) (url : Text) (size now : ℕ) (r : ℕ × ℕ) where
  -- Marking keeps the table in order.
  pub mark_chunks-IsKeyed :
      (m : Manager)
      → IsKeyed env m.chunks
      → IsKeyed env (mark_chunks env url size (r ∷ []) now m).chunks
  unfolding mark_chunks for_each
  mark_chunks-IsKeyed m h =
      let mark = mark_of url size now r in
      (
        put-Distinct (chunk_key env url r.0 r.1) mark m.chunks h.0,
        put-AllEntries (λ k v. k ≡ chunk_key env v.url v.start v.stop) (chunk_key env url r.0 r.1)
            mark m.chunks refl h.1,
      )

module _ (env : Env) (url : Text) (size hours now : ℕ) (r : ℕ × ℕ) where
  -- A range whose key is not there is not listed.
  usable_absent :
      (chunks : Assoc ChunkMark)
      → AllEntries (λ k mark. k ≡ chunk_key env mark.url mark.start mark.stop) chunks
      → lookup (chunk_key env url r.0 r.1) chunks ≡ none
      → is_done (usable_ranges url size hours now chunks) r ≡ false
  unfolding usable_ranges is_done lookup
  usable_absent [] h a = refl
  usable_absent ((k, mark) ∷ chunks) h a = ground (arith, h.0, usable_absent chunks h.1)

module _ (env : Env) (url other : Text) (size now size' hours later : ℕ) (r c : ℕ × ℕ) where
  usable-mark_one :
      (chunks : Assoc ChunkMark)
      → Distinct chunks
      → AllEntries (λ k mark. k ≡ chunk_key env mark.url mark.start mark.stop) chunks
      → IsApart env url r chunks
      → is_done (usable_ranges other size' hours later (mark_one env url size now r chunks)) c ≡ (
          if url === other && same_range r c
          then size == size' && not (ltb (now + hours * hour) later)
          else is_done (usable_ranges other size' hours later chunks) c)
  unfolding put usable_ranges is_done
  usable-mark_one [] d h a = ground arith
  usable-mark_one ((k, mark) ∷ chunks) d h a = elim (text_dec k (chunk_key env url r.0 r.1)) [
    | yes same ↦ ground (arith, a.0 same, usable_absent env url size' hours later r chunks h.1)
    | no differ ↦ ground (arith, h.0, usable-mark_one chunks d.1 h.1 a.1)
  ]

-- Where every mark stands under its own key, and the key of the new mark's range is not that of
-- another one: once a worker has marked a chunk, what a later download of any URL, size and age
-- limit takes as done is that chunk, exactly if it is of the same URL and size and the mark has not
-- outlived its hours, and every other chunk exactly if it took it as done before.
pub get_chunks-mark_chunks :
    (env : Env) (url other : Text) (size now size' hours later : ℕ) (r c : ℕ × ℕ) (m : Manager)
    → IsKeyed env m.chunks
    → IsApart env url r m.chunks
    → is_done (get_chunks other size' hours later (mark_chunks env url size (r ∷ []) now m)) c ≡ (
        if url === other && same_range r c
        then size == size' && not (ltb (now + hours * hour) later)
        else is_done (get_chunks other size' hours later m) c)
unfolding get_chunks mark_chunks for_each
get_chunks-mark_chunks env url other size now size' hours later r c m keyed apart =
    usable-mark_one env url other size now size' hours later r c m.chunks keyed.0 keyed.1 apart
