-- ===== src/Examples/Caching.antt =====
-- Runs of cache.go, with stand-ins for the hashes.
use mirrorhub.Base.{
  ℕ, ◌-◌, ◌*◌, ◌/◌, ◌≤◌, ◌<◌, ◌≡◌, refl, true, false, some, [], ◌∷◌, ◌++◌, arith, length, pos,
  for_each,
}
use mirrorhub.Base.Text.{Text, codes, trim_space, text_dec}
use mirrorhub.Base.Assoc.{lookup, without, Distinct, tally}
use mirrorhub.Cache.Counters.{no_hits}
use mirrorhub.Cache.State.{
  Entry, Meta, Manager, Env, delete_locked, file_path, is_incomplete, is_package, ttl_over,
}
use mirrorhub.Cache.Reading.{open_entry}
use mirrorhub.Cache.Reading.Serving.{served_valid}
use mirrorhub.Cache.Evicting.{evict, evict_one, sort_items, insert_item, has_key, protected_keys}
use mirrorhub.Cache.Evicting.Order.{evict_makes_room, evict_oldest_first}
use mirrorhub.Cache.Writing.{put_file, ok, digest_of, clear_begin, clear_wipe}
use mirrorhub.Cache.Writing.Stored.{stored, open_entry-put_file}
use mirrorhub.Cache.Writing.Clearing.{System, Phase, wiped_stays_empty}
use mirrorhub.Cache.Writing.Clearing

abbrev simple : Env
simple = record {
  platform_of = λ key src kind. codes "pypi";
  safe_key = λ key. key;
  sha256_hex = λ content. content;
  sha256_base64 = λ content. content;
  sha512_base64 = λ content. content;
  weak_etag = λ size now. codes "W";
  staging_suffix = λ now. codes ".put";
  eviction_target = λ total limit. limit * 3 / 4;
}

abbrev entry : Text → ℕ → Text → Entry
entry key at kind = record {
  key = key;
  file_path = codes "/c/" ++ key;
  content_type = [];
  size = 4;
  created_at = at;
  last_access = at;
  ttl_seconds = pos 1;
  source_url = codes "https://pypi.org/x";
  kind = kind;
  digest = [];
  etag = [];
  upstream_etag = [];
  repo_commit = [];
}

abbrev old : Entry
old = entry (codes "aa") 1 (codes "package")

abbrev fresh : Entry
fresh = entry (codes "bb") 2 (codes "index")

abbrev cache : Manager
cache = record {
  dir = codes "/c";
  max_size = 6;
  entries = (codes "aa", old) ∷ (codes "bb", fresh) ∷ [];
  chunks = [];
  files =
      (codes "/c/aa", codes "data")
      ∷ (codes "/c/bb", codes "text")
      ∷ (codes "/t", codes "data")
      ∷ [];
  hit = no_hits;
  dirty = false;
  clearing = false;
  writers = 0;
}

cache-Distinct : Distinct cache.entries
unfolding lookup text_dec
cache-Distinct = (refl, (refl, tt))

served_valid_example :
    (s : Entry) × (lookup (codes "aa") cache.entries ≡ some s)
    × (record old { last_access = 9 } ≡ record s { last_access = 9 })
    × (lookup s.file_path cache.files ≡ some (codes "data"))
    × (is_incomplete s ≡ false)
    × (is_package s ≡ true → (s.size ≡ length (codes "data")) × (0 < s.size))
    × (is_package s ≡ false → ttl_over s.ttl_seconds (9 - s.created_at) ≡ false)
unfolding open_entry lookup text_dec trim_space
served_valid_example =
    served_valid simple [] (codes "aa") 9 cache (record old { last_access = 9 }) (codes "data") refl

-- A limit of 3 bytes with one protected entry of four.
abbrev tight : Manager
tight = record cache { max_size = 3 }

evict_makes_room_example : has_key (codes "bb") (protected_keys (codes "bb" ∷ [])) ≡ true
unfolding evict evict_one sort_items insert_item delete_locked lookup without tally for_each
    text_dec trim_space
evict_makes_room_example =
    evict_makes_room simple (codes "bb" ∷ []) tight (codes "bb") fresh cache-Distinct (omega arith)
      (omega arith) refl

evict_oldest_first_example : (1 ≤ 2) × (has_key (codes "aa") (protected_keys []) ≡ false)
unfolding evict evict_one sort_items insert_item delete_locked lookup without tally for_each
    text_dec trim_space
evict_oldest_first_example =
    evict_oldest_first simple [] cache (codes "aa") (codes "bb") old fresh cache-Distinct refl refl
      refl refl refl

abbrev info : Meta
info = record {
  source_url = codes "https://pypi.org/y";
  kind = codes "package";
  digest = [];
  upstream_etag = [];
  repo_commit = [];
  digest_trusted = false;
}

abbrev blank : Manager
blank = record cache { entries = []; files = (codes "/t", codes "data") ∷ [] }

open_entry-put_file_example :
    let e = stored simple (codes "cc") (codes "/t") [] (pos 0) info 5 blank (codes "data") [] in
    let r = put_file simple (codes "cc") (codes "/t") [] (pos 0) info 5 blank in
    (r.1 ≡ ok e)
    × ((open_entry simple [] (codes "cc") 8 r.0).1
        ≡ some (record e { last_access = 8 }, codes "data"))
unfolding lookup text_dec trim_space digest_of file_path
open_entry-put_file_example =
    open_entry-put_file simple (codes "cc") (codes "/t") [] (pos 0) info 5 blank (codes "data") []
      [] 8 refl refl refl refl refl refl refl refl (λ j y e other. absurd (cc)) refl

wiped_stays_empty_example :
    ((clear_wipe (clear_begin cache)).entries ≡ []) × ((clear_wipe (clear_begin cache)).writers ≡ 0)
unfolding clear_begin
wiped_stays_empty_example =
    wiped_stays_empty simple cache
      (Clearing.Reach.next
        (Clearing.Reach.next Clearing.Reach.here
          (Clearing.Step.begins (record { cache = cache; phase = Phase.idle }) refl))
        (Clearing.Step.wipes (record { cache = clear_begin cache; phase = Phase.waiting }) refl
          refl))
      refl
