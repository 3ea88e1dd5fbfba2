-- ===== src/Cache/Writing/Stored.antt =====
-- What is put into the cache is found there again.
use mirrorhub.Base.{
  ℕ, ◌+◌, ◌≡◌, ◌≢◌, refl, sym, ap, subst, ◌∙◌, true, false, ◌&&◌, some, [], ◌∷◌, ◌++◌, arith, ◌==◌,
  length, ℤ,
}
use mirrorhub.Base.Text.{Text, codes, is_empty, trim_space, text_dec, ◌===◌}
use mirrorhub.Base.Assoc.{lookup, put, without, lookup-put}
use mirrorhub.Cache.State.{
  Entry, Meta, Manager, Env, is_incomplete, is_expired, file_path, put_meta,
}
use mirrorhub.Cache.Reading.{open_entry, is_damaged}
use mirrorhub.Cache.Evicting.{evict, has_key, protected_keys}
use mirrorhub.Cache.Evicting.Order.{evict-protected, evict-file}
use mirrorhub.Cache.Writing.{
  PutResult, ok, Staged, put_stage, put_commit, put_file, committed, new_entry, digest_of,
  hold_write, lacks_meta, release_write, staged_file,
}

-- A complete entry that has not expired is served with its file, if the file fits it.
open_served :
    (env : Env) (hint key : Text) (now : ℕ) (m : Manager) (e : Entry) (content : Text)
    → lookup key m.entries ≡ some e
    → is_incomplete e ≡ false
    → is_expired now e ≡ false
    → lookup e.file_path m.files ≡ some content
    → is_damaged e content ≡ false
    → (open_entry env hint key now m).1 ≡ some (record e { last_access = now }, content)
unfolding open_entry
open_served env hint key now m e content here complete fresh file fits =
    rw (here, open_entry, complete, fresh, file, fits) refl

put_commit_ok :
    (env : Env) (p : Staged env) (now : ℕ) (m : Manager) (content : Text)
    → m.clearing ≡ false
    → lookup p.staging m.files ≡ some content
    → put_commit env p now m ≡ (
      evict env (p.key ∷ []) (committed env p content now m),
      ok (new_entry env p (length content) now),
    )
unfolding put_commit
put_commit_ok env p now m content idle file = ground arith

own-protected :
    (key : Text)
    → trim_space key ≡ key
    → is_empty key ≡ false
    → has_key key (protected_keys (key ∷ [])) ≡ true
own-protected key trimmed named = rw (trimmed, named) (ground arith)

-- The new entry's file is no other entry's.
others_apart :
    (key : Text) (e : Entry) (m : Manager) (f : Text) (j : Text) (y : Entry)
    → has_key key (protected_keys (key ∷ [])) ≡ true
    → ((j : Text) (y : Entry) → lookup j m.entries ≡ some y → j ≢ key → y.file_path ≢ f)
    → lookup j (put key e m.entries) ≡ some y
    → has_key j (protected_keys (key ∷ [])) ≡ false
    → y.file_path ≢ f
others_apart key e m f j y own alone ey free = elim (text_dec key j) [
  | yes same ↦
      let own' = subst (λ (k : Text). has_key k (protected_keys (key ∷ [])) ≡ true) same own in cc
  | no other ↦ alone j y (ground (arith, ey, lookup-put key j e m.entries)) (λ p. other (sym p))
]

put_file_ok :
    (env : Env) (key src content_type : Text) (ttl : ℤ) (info : Meta) (now : ℕ) (m m1 m2 : Manager)
    (p : Staged env) (e : Entry)
    → put_stage env key src content_type ttl info now m ≡ (m1, ok p)
    → put_commit env p now m1 ≡ (m2, ok e)
    → put_file env key src content_type ttl info now m ≡ (release_write m2, ok e)
unfolding put_file
put_file_ok env key src content_type ttl info now m m1 m2 p e stage commit = ground arith

module _ (env : Env) (key src content_type : Text) (ttl : ℤ) (info : Meta) (now : ℕ) (m : Manager)
    (content digest : Text) where
  abbrev target : Text
  target = file_path env m.dir key (env.platform_of key info.source_url info.kind)

  abbrev staged : Staged env
  staged = record {
    key = key;
    content_type = content_type;
    ttl = ttl;
    info = info;
    digest = digest;
    staging = target ++ env.staging_suffix now;
    target = target;
  }

  abbrev held : Manager
  held = record m { writers = m.writers + 1 }

  abbrev after_stage : Manager
  after_stage = staged_file env src staged.staging content key held

  hold_ok : m.clearing ≡ false → hold_write m ≡ some held
  unfolding hold_write
  hold_ok idle = ground arith

  put_stage_ok :
      lacks_meta env info ≡ false
      → m.clearing ≡ false
      → lookup src m.files ≡ some content
      → digest_of env content info ≡ some digest
      → (trim_space info.kind === codes "package" && length content == 0) ≡ false
      → put_stage env key src content_type ttl info now m ≡ (after_stage, ok staged)
  unfolding put_stage
  put_stage_ok complete idle file sum fits =
      rw (complete, put_stage, hold_ok idle, file, sum, fits) refl

  abbrev pub stored : Entry
  stored = new_entry env staged (length content) now

-- Where the cache is not being cleared, Put with a source URL, a kind without surrounding spaces, a
-- key without surrounding spaces, a digest that fits the file, and a file that is not an empty
-- package succeeds, however much it evicts; and as long as the entry has not expired, Open then finds
-- it under its key with the contents of the file that was put. No other entry is to have its file.
pub open_entry-put_file :
    (env : Env) (key src content_type : Text) (ttl : ℤ) (info : Meta) (now : ℕ) (m : Manager)
    (content digest hint : Text) (later : ℕ)
    → lacks_meta env info ≡ false
    → trim_space info.kind ≡ info.kind
    → trim_space key ≡ key
    → is_empty key ≡ false
    → m.clearing ≡ false
    → lookup src m.files ≡ some content
    → digest_of env content info ≡ some digest
    → (trim_space info.kind === codes "package" && length content == 0) ≡ false
    → ((j : Text) (y : Entry)
        → lookup j m.entries ≡ some y
        → j ≢ key
        → y.file_path ≢ file_path env m.dir key (env.platform_of key info.source_url info.kind))
    → is_expired later (stored env key src content_type ttl info now m content digest) ≡ false
    → let e = stored env key src content_type ttl info now m content digest in
      let r = put_file env key src content_type ttl info now m in
      (r.1 ≡ ok e)
      × ((open_entry env hint key later r.0).1 ≡ some (record e { last_access = later }, content))
unfolding release_write committed put_meta
open_entry-put_file env key src content_type ttl info now m content digest hint later complete kind
      trimmed named idle file sum fits alone fresh =
    let e = stored env key src content_type ttl info now m content digest in
    let m1 = after_stage env key src content_type ttl info now m content digest in
    let p = staged env key src content_type ttl info now m content digest in
    let m2 = committed env p content now m1 in
    let m3 = evict env (key ∷ []) m2 in
    let stage =
      put_stage_ok env key src content_type ttl info now m content digest complete idle file sum
        fits in
    let moved : lookup p.staging m1.files ≡ some content =
      ground (arith, lookup-put p.staging p.staging content (without src m.files)) in
    let commit = put_commit_ok env p now m1 content idle moved in
    let done = put_file_ok env key src content_type ttl info now m m1 m3 p e stage commit in
    let own : has_key key (protected_keys (key ∷ [])) ≡ true = own-protected key trimmed named in
    let here : lookup key m3.entries ≡ some e =
      evict-protected env (key ∷ []) m2 key own ∙ ground (arith, lookup-put key key e m.entries) in
    let there : lookup e.file_path m3.files ≡ some content =
      evict-file env (key ∷ []) m2 e.file_path
        (λ j y. others_apart key e m e.file_path j y own alone)
      ∙ ground (arith, lookup-put e.file_path e.file_path content (without p.staging m1.files)) in
    let again : trim_space (trim_space info.kind) ≡ trim_space info.kind = ap trim_space kind in
    let whole : is_incomplete e ≡ false = rw again complete in
    let served =
      open_served env hint key later (release_write m3) e content here whole fresh there
        (ground arith) in
    subst
      (λ (r : Manager × PutResult Entry).
        (r.1 ≡ ok e)
        × ((open_entry env hint key later r.0).1
            ≡ some (record e { last_access = later }, content)))
      (sym done) (refl, served)
