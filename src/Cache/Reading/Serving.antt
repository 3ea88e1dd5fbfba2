-- ===== src/Cache/Reading/Serving.antt =====
-- What Open serves, and what it leaves to a conditional request.
use mirrorhub.Base.{
  ℕ, ◌+◌, ◌-◌, ◌<◌, ◌≡◌, true, false, none, some, arith, length, inl, inr, Option-cases,
}
use mirrorhub.Base.Text.{Text}
use mirrorhub.Base.Assoc.{lookup}
use mirrorhub.Cache.State.{
  Entry, Manager, Env, is_package, is_incomplete, is_expired, ttl_over, put_meta, delete_locked,
}
use mirrorhub.Cache.Reading.{open_entry, open_stale}

module _ (env : Env) (hint key : Text) (now : ℕ) (m : Manager) where
  -- What Open serves is the entry of its key, with the time of the access, and the contents of its
  -- file. The entry has a source and a kind; a package is not empty and its size is that of the
  -- file; and what is not a package has not outlived its TTL.
  pub served_valid :
      (e : Entry) (content : Text)
      → (open_entry env hint key now m).1 ≡ some (e, content)
      → (s : Entry) × (lookup key m.entries ≡ some s)
        × (e ≡ record s { last_access = now })
        × (lookup s.file_path m.files ≡ some content)
        × (is_incomplete s ≡ false)
        × (is_package s ≡ true → (s.size ≡ length content) × (0 < s.size))
        × (is_package s ≡ false → ttl_over s.ttl_seconds (now - s.created_at) ≡ false)
  unfolding open_entry
  served_valid e content h = elim (Option-cases (lookup key m.entries)) [
    | inl miss ↦ absurd (ground (arith, miss, h))
    | inr (s, es) ↦ (
      s,
      es,
      ground arith,
      ground arith,
      ground arith,
      λ p. ground (arith, p),
      λ p. ground (arith, p),
    )
  ]

  -- Each call of Open counts one hit and no miss, if it serves, and else one miss and no hit.
  pub open_counted :
      let r = open_entry env hint key now m in
      (r.0.hit.hits ≡ m.hit.hits + (elim r.1 [ none ↦ 0 | some _ ↦ 1 ]))
      × (r.0.hit.misses ≡ m.hit.misses + (elim r.1 [ none ↦ 1 | some _ ↦ 0 ]))
  unfolding open_entry delete_locked put_meta
  open_counted = (ground arith, ground arith)

  -- An entry that is not a package, has a source and a kind, and has outlived its TTL is not served
  -- by Open, and OpenStale then answers what it answered before.
  pub expired_is_stale :
      (e : Entry)
      → lookup key m.entries ≡ some e
      → is_incomplete e ≡ false
      → is_expired now e ≡ true
      → let r = open_entry env hint key now m in
        (r.1 ≡ none) × (open_stale key r.0 ≡ open_stale key m)
  unfolding open_entry open_stale
  expired_is_stale e here complete old = (ground arith, ground arith)
