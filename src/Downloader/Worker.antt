-- ===== src/Downloader/Worker.antt =====
-- backend/internal/downloader/chunk.go and the worker of download.go: one chunk is fetched in at most
-- five attempts, each from where the last one stopped. What the upstream, the limiter, the gate and
-- the file answer is an argument; a log lists what the worker does. Request headers, the watchdog's
-- timer and the pauses between attempts are left out.
pub mod Tiling
pub mod Losing
use mirrorhub.Base.{
  ℕ, zero, suc, ◌+◌, ◌-◌, Bool, true, false, not, ◌&&◌, ◌||◌, Option, none, some, List, [], ◌∷◌,
  ◌++◌, ltb, leb, ◌==◌, if◌then◌else◌,
}
use mirrorhub.Base.Text.{Text, codes, is_empty, format_uint, ◌===◌}
use mirrorhub.Errors.{
  GoError, sentinel, other, failed, FailError, Sentinel, stall, reconnect, Class, transient,
  auth_retry, auth_permanent, hard, cancel, Code, auth_failed, auth, Header, class_of,
  wrap_classified, status_error, is, is_transient_net_err,
}

-- How a read of the body ends: more may follow, the end, or an error.
pub data ReadEnd : Type 0 where
  goes_on at_end : ReadEnd
  broken : GoError → ReadEnd

-- What the gate of prefetching says: at once, after a wait, or not at all.
pub data GateAnswer : Type 0 where
  passes was_held : GateAnswer
  refuses : GoError → GateAnswer

-- A read of `n` bytes, and what happens to them: the gate, the limiter, the write to the file.
pub record Read : Type 0 where
  pub n : ℕ
  pub gate : GateAnswer
  pub limited : Option GoError
  pub written : Option GoError
  pub end : ReadEnd

-- The upstream's answer; `length` and `total` are 0 where they are not known.
pub record Reply : Type 0 where
  pub status : ℕ
  pub header : Header
  pub etag : Text
  pub length : ℕ
  pub total : ℕ
  pub reads : List Read

-- What doGET returns.
pub data Answer : Type 0 where
  no_reply : GoError → Answer
  replied : Reply → Answer

-- Writes to the file, an offset and a number of bytes, and what the governor and the cache are told.
pub data Event : Type 0 where
  wrote : ℕ → ℕ → Event
  slowed stalls succeeded : Event
  marked : ℕ → ℕ → Event

abbrev pub plain : Text → GoError
plain msg = other msg none

-- A FailError of changed content.
abbrev pub changed : Text → GoError
changed msg =
    failed
      (record {
        code = Code.content_changed;
        msg = msg;
        class = Class.content_changed;
        retry = 0;
        status = 0;
        challenge = none;
      })
      (sentinel Sentinel.content_changed)

abbrev pub total_of : List (ℕ × ℕ) → ℕ
total_of [] = 0
total_of ((o, n) ∷ ws) = n + total_of ws

module _ (parse_duration : Text → Option ℕ) where
  -- The body of a read before the test of how it ended: an error, or the bytes are written.
  unfoldable pub take_in : Bool → Read → Option GoError
  take_in prefetch r = elim (if prefetch then r.gate else passes) [
    | refuses e ↦ some e
    | was_held ↦ some (sentinel reconnect)
    | passes ↦ elim r.limited [ some e ↦ some e | none ↦ r.written ]
  ]

  -- The loop over the body: the writes, and the error if there is one. A body without an end reads
  -- on for ever, and is cut off by the watchdog as a stall.
  unfoldable pub read_loop : Bool → Bool → ℕ → List Read → List (ℕ × ℕ) × Option GoError
  read_loop prefetch auth_can_retry offset [] = ([], some (sentinel stall))
  read_loop prefetch auth_can_retry offset (r ∷ reads) =
      let rest = λ (at : ℕ). read_loop prefetch auth_can_retry at reads in
      elim (if r.n == 0 then none else take_in prefetch r) [
        | some e ↦ ([], some e)
        | none ↦
            let here : List (ℕ × ℕ) = if r.n == 0 then [] else (offset, r.n) ∷ [] in
            elim r.end [
              | at_end ↦ (here, none)
              | broken e ↦ (
                here,
                some (
                    if is stall e
                    then sentinel stall
                    else wrap_classified parse_duration e auth_can_retry),
              )
              | goes_on ↦ let (ws, err) = rest (offset + r.n) in (here ++ ws, err)
            ]
      ]

  abbrev short_read : ℕ → ℕ → ℕ → ℕ → Text
  short_read got want start end =
      codes "chunk short read: got "
      ++ (format_uint got
          ++ (codes " want "
              ++ (format_uint want
                  ++ (codes " (range "
                      ++ (format_uint start ++ (codes "-" ++ (format_uint end ++ codes ")")))))))

  -- The tests of the reply before its body is read.
  unfoldable pub check_reply : ℕ → ℕ → ℕ → Text → Bool → Reply → Option GoError
  check_reply start end known_size identity auth_can_retry r =
      if leb 400 r.status
      then some (status_error parse_duration r.status (some r.header) auth_can_retry)
      else if not (is_empty identity) && (not (is_empty r.etag) && not (r.etag === identity))
      then some (changed (codes "etag changed"))
      else if r.status == 200 && not (start == 0)
      then (if ltb 0 known_size && (ltb 0 r.length && not (r.length == known_size))
          then some (changed (codes "size changed on resume"))
          else some (
              plain (
                codes "chunk ignored Range (got 200 for start="
                ++ (format_uint start ++ codes ")"))))
      else if not (r.status == 206) && not (r.status == 200 && start == 0)
      then some (status_error parse_duration r.status (some r.header) auth_can_retry)
      else if ltb 0 r.total && (ltb 0 known_size && not (r.total == known_size))
      then some (
          changed (
            codes "content-range total "
            ++ (format_uint r.total ++ (codes " != known " ++ format_uint known_size))))
      else none

  -- fetchChunk
  unfoldable pub fetch_chunk :
      Bool → ℕ → ℕ → ℕ → Text → Bool → Answer → List (ℕ × ℕ) × Option GoError
  fetch_chunk prefetch start end known_size identity auth_can_retry answer =
      if ltb end start
      then (
        [],
        some (
            plain (
              codes "invalid chunk range "
              ++ (format_uint start ++ (codes "-" ++ format_uint end)))),
      )
      else elim answer [
        | no_reply e ↦ ([], some (wrap_classified parse_duration e auth_can_retry))
        | replied r ↦ elim (check_reply start end known_size identity auth_can_retry r) [
          | some e ↦ ([], some e)
          | none ↦
              let (ws, err) = read_loop prefetch auth_can_retry start r.reads in
              let got = total_of ws in
              let want = end + 1 - start in
              elim err [
                | some e ↦ (ws, some e)
                | none ↦
                    if got == want
                    then (ws, none)
                    else (ws, some (plain (short_read got want start end)))
              ]
        ]
      ]

-- What an attempt meets: whether the download has failed or ended elsewhere, the gate and the
-- connection slot, whether a new token may be asked for and what became of that, and the answer.
pub record Attempt : Type 0 where
  pub halted : Bool
  pub gate : Option GoError
  pub conn : Option GoError
  pub can_auth : Bool
  pub answer : Answer
  pub refresh : Option GoError

-- The worker is done, returns without a word, or fails the download.
pub data Outcome : Type 0 where
  finished stopped : Outcome
  gave_up : GoError → Outcome

-- How a worker goes on after an error.
pub data Next : Type 0 where
  again : List Event → Next
  ends : GoError → Next

-- What all attempts at a chunk share.
pub record Chunk : Type 0 where
  pub prefetch : Bool
  pub start : ℕ
  pub end : ℕ
  pub known_size : ℕ
  pub identity : Text

abbrev pub wrote_all : List (ℕ × ℕ) → List Event
wrote_all [] = []
wrote_all ((o, n) ∷ ws) = wrote o n ∷ wrote_all ws

module _ (parse_duration : Text → Option ℕ) where
  -- The switch on the class of an error.
  unfoldable pub on_class : Attempt → GoError → Class → Next
  on_class a e cancel = ends e
  on_class a e hard = ends (wrap_classified parse_duration e false)
  on_class a e auth_permanent = ends (wrap_classified parse_duration e false)
  on_class a e Class.content_changed = ends (wrap_classified parse_duration e false)
  on_class a e auth_retry = elim a.refresh [ some e' ↦ ends e' | none ↦ again [] ]
  on_class a e Class.rate_limit = again (slowed ∷ [])
  on_class a e transient = again (if is stall e then stalls ∷ [] else [])
  on_class a e Class.ok =
      if is reconnect e || is_transient_net_err e
      then again []
      else ends (wrap_classified parse_duration e false)

  -- The end of the loop over the attempts.
  abbrev pub spent : Option GoError → Outcome
  spent none = stopped
  spent (some e) = gave_up (wrap_classified parse_duration e false)

  -- What stops an attempt before it fetches; the gate and the slot are asked from the second on.
  abbrev pub held_up : ℕ → Attempt → Option Outcome
  held_up k a = if a.halted then some stopped else if k == 0 then none else elim a.gate [
    | some e ↦ some (gave_up e)
    | none ↦ elim a.conn [ some e ↦ some (gave_up e) | none ↦ none ]
  ]

  -- What an attempt leaves, or a later one, which goes on where this one stopped.
  unfoldable pub carry_on :
      List (ℕ × ℕ)
      → ℕ
      → GoError
      → Next
      → (ℕ → GoError → List Event × Outcome)
      → List Event × Outcome
  carry_on ws at e (ends e') next = (wrote_all ws, gave_up e')
  carry_on ws at e (again events) next =
      let (log, o) = next at e in (wrote_all ws ++ (events ++ log), o)

  unfoldable pub settle :
      Chunk
      → Attempt
      → ℕ
      → List (ℕ × ℕ) × Option GoError
      → (ℕ → GoError → List Event × Outcome)
      → List Event × Outcome
  settle ch a cur (ws, none) next =
      (wrote_all ws ++ marked ch.start ch.end ∷ succeeded ∷ [], finished)
  settle ch a cur (ws, some e) next =
      carry_on ws (cur + total_of ws) e (on_class a e (class_of parse_duration (some e))) next

  -- The loop over the attempts, of which `left` are left and `k` are over.
  unfoldable pub run_attempts :
      Chunk → (ℕ → Attempt) → ℕ → ℕ → ℕ → Option GoError → List Event × Outcome
  run_attempts ch attempts zero k cur last = ([], spent last)
  run_attempts ch attempts (suc left) k cur last =
      let a = attempts k in
      let next = λ (at : ℕ) (e : GoError). run_attempts ch attempts left (k + 1) at (some e) in
      if ltb ch.end cur then ([], spent last) else elim (held_up k a) [
        | some o ↦ ([], o)
        | none ↦
            settle ch a cur
              (fetch_chunk parse_duration ch.prefetch cur ch.end ch.known_size ch.identity
                a.can_auth a.answer)
              next
      ]

  -- runChunk, with the gate and the connection slot that it first waits for.
  unfoldable pub run_chunk :
      Chunk → Option GoError → Option GoError → (ℕ → Attempt) → List Event × Outcome
  run_chunk ch gate conn attempts = elim gate [
    | some e ↦ ([], gave_up e)
    | none ↦ elim conn [
      | some e ↦ ([], gave_up e)
      | none ↦ run_attempts ch attempts 5 0 ch.start none
    ]
  ]
