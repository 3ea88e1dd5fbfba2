-- ===== src/Cache/Reading.antt =====
-- cache.go: Get, Open, GetStale, OpenStale, and the changes of one entry. `now` is the time of the
-- call in nanoseconds since Go's zero time.
pub mod Serving
use mirrorhub.Base.{
  ℕ, ◌-◌, Bool, true, false, not, ◌&&◌, ◌||◌, Option, none, some, ltb, leb, ◌==◌, if◌then◌else◌,
  length, ℤ,
}
use mirrorhub.Base.Text.{Text, is_empty, trim_space, ◌===◌}
use mirrorhub.Base.Assoc.{lookup}
use mirrorhub.Cache.Counters.{note_hit}
use mirrorhub.Cache.State.{
  Entry, Manager, Env, is_package, is_incomplete, is_expired, put_meta, delete_locked, hit_platform,
  missed, access_interval,
}

-- The file of a package has the size that its entry says, and is not empty.
abbrev pub is_damaged : Entry → Text → Bool
is_damaged e content = is_package e && (e.size == 0 || not (length content == e.size))

-- LastAccess is written back at most every thirty seconds.
abbrev pub touched : ℕ → Entry → Manager → Manager
touched now e m =
    if e.last_access == 0 || leb access_interval (now - e.last_access)
    then put_meta (record e { last_access = now }) m
    else m

module _ (env : Env) where
  abbrev pub dropped : Text → Text → Entry → Manager → Manager
  dropped hint key e m = missed env hint key (some e) (delete_locked key m)

  -- Open, with the contents of the file that it opens.
  unfoldable pub open_entry : Text → Text → ℕ → Manager → Manager × Option (Entry × Text)
  open_entry hint key now m = elim (lookup key m.entries) [
    | none ↦ (missed env hint key none m, none)
    | some e ↦
        if is_incomplete e
        then (dropped hint key e m, none)
        else if is_expired now e
        then (missed env hint key (some e) m, none)
        else elim (lookup e.file_path m.files) [
          | none ↦ (dropped hint key e m, none)
          | some content ↦
              if is_damaged e content
              then (dropped hint key e m, none)
              else let m' = touched now e m in
                (
                  record m' {
                    hit = note_hit (hit_platform env hint key (some e)) m'.hit;
                    dirty = true;
                  },
                  some (record e { last_access = now }, content),
                )
        ]
  ]

  -- Get: the same without opening the file.
  unfoldable pub get : Text → Text → ℕ → Manager → Manager × Option Entry
  unfolding open_entry
  get hint key now m =
      let r = open_entry hint key now m in (r.0, elim r.1 [ none ↦ none | some (e, _) ↦ some e ])

-- OpenStale, with the contents of the file that it opens.
unfoldable pub open_stale : Text → Manager → Option (Entry × Text)
open_stale key m = elim (lookup key m.entries) [
  | none ↦ none
  | some e ↦
      if is_incomplete e
      then none
      else elim (lookup e.file_path m.files) [ none ↦ none | some content ↦ some (e, content) ]
]

-- GetStale
unfoldable pub get_stale : Text → Manager → Option Entry
unfolding open_stale
get_stale key m = elim (open_stale key m) [ none ↦ none | some (e, _) ↦ some e ]

-- RenewTTL; none is its error.
unfoldable pub renew_ttl : Text → ℤ → ℕ → Manager → Option Manager
renew_ttl key ttl now m = elim (lookup key m.entries) [
  | none ↦ none
  | some e ↦ some (put_meta (record e { created_at = now; last_access = now; ttl_seconds = ttl }) m)
]

-- SetRepoCommit; none is its error.
unfoldable pub set_repo_commit : Text → Text → ℕ → Manager → Option Manager
set_repo_commit key commit now m =
    let commit = trim_space commit in
    if is_empty commit then none else elim (lookup key m.entries) [
      | none ↦ none
      | some e ↦
          if e.repo_commit === commit
          then some m
          else some (put_meta (record e { repo_commit = commit; last_access = now }) m)
    ]
