-- ===== src/Examples/Sharing.antt =====
-- Two requests for one file, and what a third makes of a failed download; registries and digests.
use mirrorhub.Base.{
  ℕ, ◌≡◌, refl, true, false, ◌&&◌, inl, none, some, [], ◌∷◌, ◌++◌, arith, All, leb,
}
use mirrorhub.Base.Text.{Text, codes, has_prefix, to_lower, trim_space, text_dec}
use mirrorhub.Base.Split.{split_once}
use mirrorhub.Base.Assoc.{lookup, put}
use mirrorhub.Errors.{GoError, other}
use mirrorhub.Downloader.Inflight.{
  fetch, stream, runs, Wait, Engine, no_downloads, waits_for, arrive, Step, Reach,
}
use mirrorhub.Downloader.Inflight.Single.{is_stream, single_flight}
use mirrorhub.Downloader.Inflight.Following.{
  ServeTry, serve_package, failed_tries, fails, serve_takes_over,
}
use mirrorhub.Downloader.Digest.{
  all_hex_digits, strip_fragment, lookup_digest, remember_digest, lookup_digest-remember_digest,
}
use mirrorhub.Handlers.{normalize_path}
use mirrorhub.Handlers.Goproxy.{is_goproxy_path, is_sum_db_path, escape_path, escape_ascii}
use mirrorhub.Handlers.Npm.{is_reserved_proxy_path}
use mirrorhub.Handlers.Routing.{others_reserved}
use mirrorhub.Handlers.Escaping.{unescape, unescape-escape_path}

abbrev file_key : Text
file_key = codes "k"

-- A prefetching request leads, and an interactive one stops it.
abbrev prefetched : Engine
prefetched = (arrive file_key fetch no_downloads).0

abbrev interrupted : Engine
interrupted = (arrive file_key stream prefetched).0

abbrev stopped_wait : Wait
stopped_wait = record { key = file_key; mode = fetch; phase = runs; stopped = true }

single_flight_example :
    (◌≡◌ {A = ℕ} 0 0)
    × (lookup file_key interrupted.inflight ≡ some 0)
    × ((arrive file_key stream interrupted).1 ≡ waits_for 0)
    × ((stopped_wait.stopped && is_stream stopped_wait.mode) ≡ false)
unfolding arrive lookup put text_dec
single_flight_example =
    single_flight 0 0 stopped_wait stopped_wait stream
      (Reach.next_step (Reach.next_step Reach.here (Step.arrives no_downloads file_key fetch))
        (Step.arrives prefetched file_key stream))
      refl refl refl refl refl

abbrev timed_out : GoError
timed_out = other (codes "timeout") none

serve_takes_over_example :
    serve_package none
      (failed_tries (timed_out ∷ timed_out ∷ []) ++ ServeTry.leads (inl timed_out) ∷ [])
    ≡ fails timed_out
serve_takes_over_example =
    serve_takes_over (timed_out ∷ timed_out ∷ []) (inl timed_out) [] (omega arith)

others_reserved_example : is_reserved_proxy_path (codes "sumdb/sum.golang.org/latest") ≡ true
unfolding is_goproxy_path is_sum_db_path normalize_path has_prefix
others_reserved_example = others_reserved (codes "sumdb/sum.golang.org/latest") refl

unescape-escape_path_example :
    (unescape (codes "!az") ≡ codes "Az") × All (λ c. (leb 65 c && leb c 90) ≡ false) (codes "!az")
unfolding escape_path escape_ascii trim_space
unescape-escape_path_example =
    unescape-escape_path (codes " Az") (codes "!az")
      (λ e. absurd (omega (arith, e)), (λ e. absurd (omega (arith, e)), tt)) refl

abbrev digest : Text
digest = codes "E3B0C44298FC1C149AFBF4C8996FB92427AE41E4649B934CA495991B7852B855"

lookup_digest-remember_digest_example :
    lookup_digest
      (λ url. some url)
      (codes "https://u/w.whl#frag")
      (remember_digest (λ url. some url) (codes "https://u/w.whl") digest [])
    ≡ to_lower (trim_space digest)
unfolding strip_fragment split_once to_lower trim_space all_hex_digits
lookup_digest-remember_digest_example =
    lookup_digest-remember_digest (λ url. some url) (codes "https://u/w.whl")
      (codes "https://u/w.whl#frag") digest [] refl refl refl
