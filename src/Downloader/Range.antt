-- ===== src/Downloader/Range.antt =====
-- backend/internal/downloader/serve.go and head.go: byte ranges as a client asks for them, as the
-- cache serves them, and as the downloader reads the answer. Texts are ASCII; a client that stops
-- reading and a file that cannot be read are not modelled.
pub mod Bounds
pub mod RoundTrip
pub mod Served
use mirrorhub.Base.{
  ℕ, ◌+◌, ◌-◌, Bool, true, false, not, ◌&&◌, ◌||◌, Option, none, some, [], ◌∷◌, ◌++◌, leb, ltb,
  ◌==◌, if◌then◌else◌, ℤ, pos, negsuc, drop, take,
}
use mirrorhub.Base.Text.{
  Text, codes, is_empty, trim_space, to_lower, has_prefix, contains, format_uint, ◌===◌,
}
use mirrorhub.Base.Split.{split_once, after_last}
use mirrorhub.Base.Assoc.{Assoc, put}
use mirrorhub.Base.Numbers.{parse_int}
use mirrorhub.Cache.State.{Entry, Env}

pub data RangeError : Type 0 where
  unsupported_unit multiple_ranges invalid_range invalid_suffix : RangeError
  invalid_start invalid_end not_satisfiable : RangeError

-- The four results of parseSingleRange as one.
pub data ByteRange : Type 0 where
  whole : ByteRange
  part : ℕ → ℕ → ByteRange
  refused : RangeError → ByteRange

-- `bytes=-N`
abbrev pub suffix_range : ℕ → Option ℤ → ByteRange
suffix_range size none = refused invalid_suffix
suffix_range size (some (negsuc n)) = refused invalid_suffix
suffix_range size (some (pos n)) =
    if n == 0
    then refused invalid_suffix
    else part (size - (if ltb size n then size else n)) (size - 1)

abbrev pub clamped : ℕ → ℕ → ℕ → ByteRange
clamped size start stop =
    if leb size start
    then refused not_satisfiable
    else part start (if leb size stop then size - 1 else stop)

abbrev pub with_end : ℕ → ℕ → Option ℤ → ByteRange
with_end size start none = refused invalid_end
with_end size start (some (negsuc n)) = refused invalid_end
with_end size start (some (pos stop)) =
    if ltb stop start then refused invalid_end else clamped size start stop

abbrev pub with_start : ℕ → Text → Option ℤ → ByteRange
with_start size p1 none = refused invalid_start
with_start size p1 (some (negsuc n)) = refused invalid_start
with_start size p1 (some (pos start)) =
    if is_empty p1 then clamped size start (size - 1) else with_end size start (parse_int p1)

abbrev pub of_parts : ℕ → Option (Text × Text) → ByteRange
of_parts size none = refused invalid_range
of_parts size (some (p0, p1)) =
    if is_empty p0 then suffix_range size (parse_int p1) else with_start size p1 (parse_int p0)

abbrev pub of_spec : Text → ℕ → ByteRange
of_spec spec size =
    if contains spec (codes ",")
    then refused multiple_ranges
    else of_parts size (split_once b'-' spec)

unfoldable pub parse_single_range : Text → ℕ → ByteRange
parse_single_range header size =
    let header = trim_space header in
    if is_empty header || size == 0
    then whole
    else if not (has_prefix (codes "bytes=") (to_lower header))
    then refused unsupported_unit
    else of_spec (trim_space (drop 6 header)) size

-- The Range header of fetchChunk.
unfoldable pub chunk_range : ℕ → ℕ → Text
chunk_range start stop = codes "bytes=" ++ (format_uint start ++ b'-' ∷ format_uint stop)

-- The Range header with which a serial download goes on behind the bytes that it has.
unfoldable pub resume_range : ℕ → Text
resume_range have = codes "bytes=" ++ (format_uint have ++ b'-' ∷ [])

-- The Content-Range header of an answer 206.
unfoldable pub content_range : ℕ → ℕ → ℕ → Text
content_range start stop size =
    codes "bytes " ++ (format_uint start ++ b'-' ∷ (format_uint stop ++ b'/' ∷ format_uint size))

-- A number above 0; else -1, which is none here.
abbrev pub positive : Option ℤ → Option ℕ
positive none = none
positive (some (negsuc n)) = none
positive (some (pos n)) = if n == 0 then none else some n

abbrev pub total_in : Option Text → Option ℕ
total_in none = none
total_in (some total) =
    let total = trim_space total in
    if total === codes "*" || is_empty total then none else positive (parse_int total)

-- parseContentRangeTotal
unfoldable pub parse_content_range_total : Text → Option ℕ
parse_content_range_total cr = total_in (after_last b'/' (trim_space cr))

-- What the client gets: the status, the headers in the order in which they are set, the body.
pub record Response : Type 0 where
  pub status : ℕ
  pub header : Assoc Text
  pub body : Text

module _ (env : Env) where
  -- The entry's own, its digest's, or a weak one.
  abbrev pub response_etag : Entry → Text
  response_etag e =
      let etag =
        if is_empty e.etag && not (is_empty e.digest)
        then codes "\"" ++ (e.digest ++ codes "\"")
        else e.etag in
      if is_empty etag then env.weak_etag e.size e.created_at else etag

  abbrev pub common_header : Entry → Bool → Text → Assoc Text
  common_header e boost label =
      let ct =
        if is_empty e.content_type then codes "application/octet-stream" else e.content_type in
      let h = put (codes "X-Mirrorhub-Strategy") (codes "cache") (
        put (codes "X-Cache") label (
          put (codes "ETag") (response_etag e)
            (put (codes "Accept-Ranges") (codes "bytes") (put (codes "Content-Type") ct [])))) in
      let h = if boost then put (codes "X-Mirrorhub-Boost") (codes "1") h else h in
      if is_empty e.repo_commit then h else put (codes "X-Repo-Commit") e.repo_commit h

  abbrev pub respond : Entry → Text → Assoc Text → ByteRange → Response
  respond e content h (refused _) = record {
    status = 416;
    header = put (codes "Content-Range") (codes "bytes */" ++ format_uint e.size) h;
    body = [];
  }
  respond e content h (part start stop) =
      let n = stop - start + 1 in
      record {
        status = 206;
        header =
            put (codes "Content-Range") (content_range start stop e.size)
              (put (codes "Content-Length") (format_uint n) h);
        body = take n (drop start content);
      }
  respond e content h whole = record {
    status = 200;
    header = put (codes "Content-Length") (format_uint e.size) h;
    body = content;
  }

  -- serveCachedFile: the response, and the label for the access log.
  unfoldable pub serve_cached_file : Entry → Text → Bool → Text → Text → Response × Text
  serve_cached_file e content boost range_header cache_label =
      let label = if is_empty cache_label then codes "HIT" else cache_label in
      (
        respond e content (common_header e boost label) (parse_single_range range_header e.size),
        to_lower label,
      )
