-- ===== src/Downloader/Range/Served.antt =====
-- backend/internal/downloader/serve.go: what a client gets of a cached file, and that a hub that
-- downloads from a hub gets the bytes that it asks for.
use mirrorhub.Base.{
  ℕ, zero, suc, ◌+◌, ◌-◌, ◌≤◌, ◌<◌, ◌≡◌, refl, sym, ◌∙◌, ◌⊎◌, inl, inr, Bool, true, false, some, [],
  ◌∷◌, ◌++◌, arith, leb, if◌then◌else◌, drop, take, length, length-drop, take_all, take-add,
}
use mirrorhub.Base.Text.{Text, text_dec, codes, is_empty, format_uint, ◌===◌}
use mirrorhub.Base.Assoc.{Assoc, lookup, put, lookup-put}
use mirrorhub.Base.Numbers.{max_int}
use mirrorhub.Cache.State.{Entry, Env}
use mirrorhub.Downloader.Range.{
  ByteRange, whole, part, refused, parse_single_range, chunk_range, resume_range, content_range,
  parse_content_range_total, Response, respond, common_header, serve_cached_file,
}
use mirrorhub.Downloader.Range.Bounds.{IsInside, parse_single_range-IsInside}
use mirrorhub.Downloader.Range.RoundTrip.{
  parse_single_range-chunk_range, parse_single_range-resume_range, parse_total-content_range,
}

-- The bytes from `start` to `stop`, both included.
abbrev pub bytes_of : Text → ℕ → ℕ → Text
bytes_of content start stop = take (stop - start + 1) (drop start content)

-- The header Content-Length is there and says how long the body is.
abbrev pub HasLength : Response → Type 0
HasLength r = lookup (codes "Content-Length") r.header ≡ some (format_uint (length r.body))

-- The whole file, nothing, or a part of it that is not empty, each under its status.
abbrev pub IsAnswer : Entry → Text → Response → Type 0
IsAnswer e content r =
    ((r.status ≡ 200) × (r.body ≡ content) × HasLength r)
    ⊎ (((r.status ≡ 416) × (r.body ≡ []))
        ⊎ ((start : ℕ) × (stop : ℕ) × (start ≤ stop)
            × (stop < e.size)
            × (r.status ≡ 206)
            × (r.body ≡ bytes_of content start stop)
            × HasLength r
            × (lookup (codes "Content-Range") r.header ≡ some (content_range start stop e.size))))

length-take : (n : ℕ) (s : Text) → n ≤ length s → length (take n s) ≡ n
length-take zero s h = refl
length-take (suc n) [] h = absurd (omega arith)
length-take (suc n) (c ∷ s) h = omega (arith, length-take n s (omega arith))

length-bytes_of :
    (content : Text) (start stop : ℕ)
    → start ≤ stop
    → stop < length content
    → length (bytes_of content start stop) ≡ stop - start + 1
length-bytes_of content start stop h inside =
    length-take (stop - start + 1) (drop start content) (omega (arith, length-drop start content))

same_text : (k : Text) → (k === k) ≡ true
same_text k = ground arith

lookup-put_same : (k v : Text) (h : Assoc Text) → lookup k (put k v h) ≡ some v
lookup-put_same k v h = lookup-put k k v h ∙ rw (same_text k) refl

module _ (env : Env) (e : Entry) (content : Text) (complete : length content ≡ e.size) where
  respond-IsAnswer :
      (h : Assoc Text) (r : ByteRange)
      → IsInside e.size r
      → IsAnswer e content (respond env e content h r)
  unfolding text_dec
  respond-IsAnswer h whole inside =
      inl (refl, refl, rw complete (lookup-put_same (codes "Content-Length") _ h))
  respond-IsAnswer h (refused x) inside = inr (inl (refl, refl))
  respond-IsAnswer h (part start stop) inside =
      let n = length-bytes_of content start stop inside.0 (omega (arith, complete, inside.1)) in
      let len =
        lookup-put (codes "Content-Range") (codes "Content-Length")
          (content_range start stop e.size)
          (put (codes "Content-Length") (format_uint (stop - start + 1)) h)
        ∙ lookup-put_same (codes "Content-Length") (format_uint (stop - start + 1)) h in
      inr (
        inr (
          start,
          stop,
          inside.0,
          inside.1,
          refl,
          refl,
          rw n len,
          lookup-put_same (codes "Content-Range") _ _,
        ))

-- Where a cached file is as long as its entry says, then whatever Range header a client sends: it
-- gets the whole file with 200, a part that is not empty and ends before the file does with 206 and
-- the header Content-Range for it, or an empty body with 416; and Content-Length, where there is a
-- body, is the body's length.
pub serve_cached_file_lem :
    (env : Env) (e : Entry) (content : Text)
    → length content ≡ e.size
    → (boost : Bool) (range_header label : Text)
    → IsAnswer e content (serve_cached_file env e content boost range_header label).0
unfolding serve_cached_file
serve_cached_file_lem env e content complete boost range_header label =
    respond-IsAnswer env e content complete
      (common_header env e boost (if is_empty label then codes "HIT" else label))
      (parse_single_range range_header e.size) (parse_single_range-IsInside range_header e.size)

-- Where a chunk lies in a cached file, the hub answers the Range header that fetchChunk sends for it
-- with 206 and the chunk's bytes, all of them, and the size that fetchChunk reads from the answer's
-- Content-Range is the file's.
pub chunk_served :
    (env : Env) (e : Entry) (content : Text) (boost : Bool) (label : Text) (start stop : ℕ)
    → length content ≡ e.size
    → e.size ≤ max_int
    → start ≤ stop
    → stop < e.size
    → let r = (serve_cached_file env e content boost (chunk_range start stop) label).0 in
      (r.status ≡ 206)
      × (r.body ≡ bytes_of content start stop)
      × (length r.body ≡ stop - start + 1)
      × (lookup (codes "Content-Range") r.header ≡ some (content_range start stop e.size))
      × (parse_content_range_total (content_range start stop e.size) ≡ some e.size)
unfolding serve_cached_file
chunk_served env e content boost label start stop complete small ordered inside =
    let inner : leb e.size stop ≡ false = ground arith in
    let read : parse_single_range (chunk_range start stop) e.size ≡ part start stop =
      parse_single_range-chunk_range start stop e.size ordered (omega arith) (omega arith)
      ∙ rw inner refl in
    rw read (
      refl,
      refl,
      length-bytes_of content start stop ordered (omega arith),
      lookup-put_same (codes "Content-Range") _ _,
      parse_total-content_range start stop e.size (omega arith) (omega arith) (omega arith) small,
    )

rest_of :
    (content : Text) (have n : ℕ)
    → length content ≤ have + n
    → take have content ++ take n (drop have content) ≡ content
rest_of content have n h = sym (take-add have n content) ∙ take_all (have + n) content h

-- Where the downloader has the first bytes of a cached file, but not all of them, the hub answers
-- the Range header with which a serial download goes on with 206 and the rest: the two together are
-- the file.
pub resume_completes :
    (env : Env) (e : Entry) (content : Text) (boost : Bool) (label : Text) (have : ℕ)
    → length content ≡ e.size
    → e.size ≤ max_int
    → have < e.size
    → let r = (serve_cached_file env e content boost (resume_range have) label).0 in
      (r.status ≡ 206) × (take have content ++ r.body ≡ content)
unfolding serve_cached_file
resume_completes env e content boost label have complete small inside =
    let read = parse_single_range-resume_range have e.size inside small in
    rw read (refl, rest_of content have (e.size - 1 - have + 1) (omega arith))
