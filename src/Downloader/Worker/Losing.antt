-- ===== src/Downloader/Worker/Losing.antt =====
-- A chunk whose last byte is written, and whose body then breaks.
use mirrorhub.Base.{
  ℕ, zero, suc, ◌+◌, ◌≤◌, ◌≡◌, refl, true, false, Option, none, some, List, arith, ltb,
}
use mirrorhub.Base.Text.{Text}
use mirrorhub.Errors.{GoError, transient, class_of, wrap_classified}
use mirrorhub.Downloader.Worker.{
  Attempt, Chunk, gave_up, total_of, fetch_chunk, settle, carry_on, on_class, run_attempts,
  run_chunk,
}

module _ (parse_duration : Text → Option ℕ) (ch : Chunk) (attempts : ℕ → Attempt)
    (ws : List (ℕ × ℕ)) (e : GoError) where
  over :
      (left k cur : ℕ)
      → ch.end + 1 ≤ cur
      → (run_attempts parse_duration ch attempts left k cur (some e)).1
        ≡ gave_up (wrap_classified parse_duration e false)
  unfolding run_attempts
  over zero k cur h = refl
  over (suc left) k cur h = let b : ltb ch.end cur ≡ true = ground arith in rw b refl

  -- If the first attempt has written the chunk to its end, but the body then breaks with an error
  -- that counts as transient, the worker fails the download, with nothing left to fetch.
  pub written_chunk_fails :
      ch.start ≤ ch.end
      → (attempts 0).halted ≡ false
      → fetch_chunk parse_duration ch.prefetch ch.start ch.end ch.known_size ch.identity
          (attempts 0).can_auth
          (attempts 0).answer
        ≡ (ws, some e)
      → ch.start + total_of ws ≡ ch.end + 1
      → class_of parse_duration (some e) ≡ transient
      → (run_chunk parse_duration ch none none attempts).1
        ≡ gave_up (wrap_classified parse_duration e false)
  unfolding run_chunk run_attempts settle carry_on on_class
  written_chunk_fails below going answer whole class =
      let b : ltb ch.end ch.start ≡ false = ground arith in
      rw (b, going, answer, class) (over 4 1 (ch.start + total_of ws) (omega arith))
