-- ===== src/Errors/Status.antt =====
-- isTransientNetErr of httputil.go and parseStatusFromErr of errors.go: what is read off an
-- error's message.
use mirrorhub.Base.{
  ℕ, ◌+◌, ◌-◌, ◌*◌, Bool, true, false, ◌&&◌, ◌||◌, Option, none, some, List, [], ◌∷◌, ltb, leb,
  ◌==◌, if◌then◌else◌, length, drop,
}
use mirrorhub.Base.Text.{Text, codes, is_empty, contains, has_prefix, to_lower}
use mirrorhub.Errors.Values.{
  GoError, unexpected_eof, conn_reset, broken_pipe, conn_refused, is, times_out, error_text,
}

contains_any : Text → List Text → Bool
contains_any s [] = false
contains_any s (p ∷ ps) = contains s p || contains_any s ps

abbrev transient_words : List Text
transient_words =
    codes "tls handshake timeout"
    ∷ codes "timeout awaiting response headers"
    ∷ codes "i/o timeout"
    ∷ codes "connection reset"
    ∷ codes "connection refused"
    ∷ codes "unexpected eof"
    ∷ codes "broken pipe"
    ∷ codes "server closed idle connection"
    ∷ codes "http2: response body closed"
    ∷ codes "stream closed"
    ∷ codes "connection closed"
    ∷ codes "temporary"
    ∷ []

unfoldable pub is_transient_net_err : GoError → Bool
unfolding contains_any
is_transient_net_err e =
    is unexpected_eof e
    || (is conn_reset e
        || (is broken_pipe e
            || (is conn_refused e
                || (times_out e || contains_any (to_lower (error_text e)) transient_words))))

-- fmt.Sscanf(s, "%d", &n) into a number below 600; a sign '-' gives none, as n is to be at least 100.
scan_digits : Text → ℕ → Bool → Option ℕ
scan_digits [] n seen = if seen then some n else none
scan_digits (c ∷ s) n seen =
    let rest = scan_digits s (n * 10 + (c - 48)) true in
    if leb b'0' c && leb c b'9' then rest else if seen then some n else none

skip_plus : Text → Text
skip_plus [] = []
skip_plus (c ∷ s) = if c == b'+' then s else c ∷ s

skip_spaces : Text → Text
skip_spaces [] = []
skip_spaces (c ∷ s) = let rest = skip_spaces s in if c == b' ' then rest else c ∷ s

scan_int : Text → Option ℕ
unfolding scan_digits skip_plus skip_spaces
scan_int s = scan_digits (skip_plus (skip_spaces s)) 0 false

-- What stands behind the first place where the lower-cased text has `p`.
behind : Text → Text → Option Text
behind p [] = if is_empty p then some [] else none
behind p (c ∷ s) =
    let rest = behind p s in
    if has_prefix p (to_lower (c ∷ s)) then some (drop (length p) (c ∷ s)) else rest

status_behind : Text → Text → Option ℕ
unfolding behind scan_int
status_behind s p = elim (behind p s) [
  | none ↦ none
  | some rest ↦ elim (scan_int rest) [
    | none ↦ none
    | some n ↦ if leb 100 n && ltb n 600 then some n else none
  ]
]

first_status : Text → List Text → Option ℕ
unfolding status_behind
first_status s [] = none
first_status s (p ∷ ps) = elim (status_behind s p) [ none ↦ first_status s ps | some n ↦ some n ]

word_status : Text → ℕ
word_status low =
    if contains low (codes "401") || contains low (codes "unauthorized")
    then 401
    else if contains low (codes "403") || contains low (codes "forbidden")
    then 403
    else if contains low (codes "429")
    then 429
    else if contains low (codes "503")
    then 503
    else if contains low (codes "404")
    then 404
    else 0

unfoldable pub parse_status_from_err : GoError → ℕ
unfolding first_status word_status
parse_status_from_err e =
    let s = error_text e in
    elim (first_status s (codes "chunk status " ∷ codes "upstream " ∷ codes "status " ∷ [])) [
      | none ↦ word_status (to_lower s)
      | some n ↦ n
    ]
