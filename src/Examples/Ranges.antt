-- ===== src/Examples/Ranges.antt =====
-- Runs of serve.go: a cached file of ten bytes, and clients that ask for parts of it.
use mirrorhub.Base.{◌≡◌, refl, true, false, some, [], ◌++◌, arith, pos, take, length}
use mirrorhub.Base.Text.{Text, codes, trim_space, has_prefix, to_lower, contains}
use mirrorhub.Base.Split.{split_once}
use mirrorhub.Base.Numbers.{parse_int, digits_value}
use mirrorhub.Base.Assoc.{lookup}
use mirrorhub.Cache.State.{Entry, Env}
use mirrorhub.Downloader.Range.{
  serve_cached_file, chunk_range, resume_range, content_range, parse_content_range_total,
  parse_single_range, part, refused, multiple_ranges, not_satisfiable,
}
use mirrorhub.Downloader.Range.Served.{
  IsAnswer, serve_cached_file_lem, chunk_served, resume_completes,
}

abbrev hub : Env
hub = record {
  platform_of = λ key src kind. codes "pypi";
  safe_key = λ key. key;
  sha256_hex = λ content. content;
  sha256_base64 = λ content. content;
  sha512_base64 = λ content. content;
  weak_etag = λ size now. codes "W";
  staging_suffix = λ now. codes ".put";
  eviction_target = λ total limit. total;
}

abbrev wheel : Entry
wheel = record {
  key = codes "w";
  file_path = codes "/c/w";
  content_type = [];
  size = 10;
  created_at = 1;
  last_access = 1;
  ttl_seconds = pos 0;
  source_url = codes "https://pypi.org/w.whl";
  kind = codes "package";
  digest = [];
  etag = [];
  upstream_etag = [];
  repo_commit = [];
}

abbrev letters : Text
letters = codes "abcdefghij"

last_three : parse_single_range (codes " Bytes=-3") 10 ≡ part 7 9
unfolding parse_single_range trim_space has_prefix to_lower contains split_once parse_int
    digits_value
last_three = refl

two_ranges : parse_single_range (codes "bytes=0-1,4-5") 10 ≡ refused multiple_ranges
unfolding parse_single_range trim_space has_prefix to_lower contains
two_ranges = refl

behind_the_end : parse_single_range (codes "bytes=10-") 10 ≡ refused not_satisfiable
unfolding parse_single_range trim_space has_prefix to_lower contains split_once parse_int
    digits_value
behind_the_end = refl

serve_cached_file_lem_example :
    IsAnswer wheel letters (serve_cached_file hub wheel letters true (codes "bytes=-3") []).0
serve_cached_file_lem_example =
    serve_cached_file_lem hub wheel letters refl true (codes "bytes=-3") []

chunk_served_example :
    let r = (serve_cached_file hub wheel letters true (chunk_range 4 7) []).0 in
    (r.status ≡ 206)
    × (r.body ≡ codes "efgh")
    × (length r.body ≡ 4)
    × (lookup (codes "Content-Range") r.header ≡ some (content_range 4 7 10))
    × (parse_content_range_total (content_range 4 7 10) ≡ some 10)
chunk_served_example =
    chunk_served hub wheel letters true [] 4 7 refl (omega arith) (omega arith) (omega arith)

resume_completes_example :
    let r = (serve_cached_file hub wheel letters false (resume_range 6) []).0 in
    (r.status ≡ 206) × (take 6 letters ++ r.body ≡ letters)
resume_completes_example =
    resume_completes hub wheel letters false [] 6 refl (omega arith) (omega arith)
