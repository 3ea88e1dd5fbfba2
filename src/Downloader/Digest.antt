-- ===== src/Downloader/Digest.antt =====
-- backend/internal/downloader/digest.go: the digests that indexes give for URLs, and the check of a
-- downloaded file against one. The map is shared; `bare` is url.Parse with the URL's String behind
-- the removal of query and fragment, none where it does not parse. When the map is written to its
-- file, which a timer decides, is not modelled.
use mirrorhub.Base.{
  ℕ, ◌≡◌, refl, ap, ◌∙◌, Bool, true, false, not, ◌&&◌, ◌||◌, Option, none, some, List, [], ◌∷◌,
  arith, leb, ◌==◌, if◌then◌else◌, length, for_each,
}
use mirrorhub.Base.Text.{Text, codes, is_empty, has_prefix, to_lower, trim_space, ◌===◌}
use mirrorhub.Base.Split.{split_once, equal_fold, trim_prefix}
use mirrorhub.Base.Assoc.{Assoc, lookup, put, lookup-put}

-- isHex64, whose loop is all_hex_digits.
abbrev pub is_hex : ℕ → Bool
is_hex c = (leb b'0' c && leb c b'9') || ((leb b'a' c && leb c b'f') || (leb b'A' c && leb c b'F'))

unfoldable pub all_hex_digits : Text → Bool
all_hex_digits [] = true
all_hex_digits (c ∷ s) = is_hex c && all_hex_digits s

abbrev pub is_hex64 : Text → Bool
is_hex64 s = length s == 64 && all_hex_digits s

abbrev pub is_sri : Text → Bool
is_sri v = has_prefix (codes "sha256-") v || has_prefix (codes "sha512-") v

-- validStoredDigest
unfoldable pub valid_stored_digest : Text → Bool
valid_stored_digest v = let v = trim_space v in is_hex64 v || is_sri v

-- normalizeStoredDigest
unfoldable pub normalize_stored_digest : Text → Text
normalize_stored_digest v = let v = trim_space v in if is_hex64 v then to_lower v else v

-- stripFragment
unfoldable pub strip_fragment : Text → Text
strip_fragment raw = elim (split_once b'#' raw) [ none ↦ raw | some (url, _) ↦ url ]

module _ (bare : Text → Option Text) where
  abbrev pub store_bare : Text → Text → Option Text → Assoc Text → Assoc Text
  store_bare clean value none m = m
  store_bare clean value (some s) m = if is_empty s || s === clean then m else put s value m

  -- storeDigest
  unfoldable pub store_digest : Text → Text → Assoc Text → Assoc Text
  store_digest url value m =
      let clean = strip_fragment url in
      if is_empty clean || is_empty value
      then m
      else store_bare clean value (bare clean) (put clean value m)

  -- RememberDigest
  unfoldable pub remember_digest : Text → Text → Assoc Text → Assoc Text
  remember_digest url sha256hex m =
      let d = to_lower (trim_space sha256hex) in if is_hex64 d then store_digest url d m else m

  -- RememberIntegrity
  unfoldable pub remember_integrity : Text → Text → Assoc Text → Assoc Text
  remember_integrity url integrity m =
      let v = trim_space integrity in
      if is_hex64 v then remember_digest url v m else if is_sri v then store_digest url v m else m

  abbrev pub lookup_bare : Option Text → Assoc Text → Text
  lookup_bare none m = []
  lookup_bare (some s) m = elim (lookup s m) [ none ↦ [] | some v ↦ v ]

  -- LookupDigest
  unfoldable pub lookup_digest : Text → Assoc Text → Text
  lookup_digest url m =
      let clean = strip_fragment url in
      elim (lookup clean m) [ none ↦ lookup_bare (bare clean) m | some v ↦ v ]

  -- A round of the loop in loadDigestsFile.
  abbrev pub load_one : Text × Text → Assoc Text → Assoc Text
  load_one (k, v) m =
      if is_empty k || not (valid_stored_digest v) then m else put k (normalize_stored_digest v) m

  -- loadDigestsFile, with the pairs of the file.
  unfoldable pub load_digests : List (Text × Text) → Assoc Text → Assoc Text
  load_digests pairs m = for_each load_one pairs m

  -- resolveExpectedDigest
  unfoldable pub resolve_expected_digest : Text → Text → Text → Assoc Text → Text
  resolve_expected_digest expected source url m =
      if not (is_empty expected)
      then expected
      else (let d = lookup_digest source m in if not (is_empty d) then d else lookup_digest url m)

  pub store_bare-lookup :
      (clean value : Text) (o : Option Text) (m : Assoc Text)
      → lookup clean m ≡ some value
      → lookup clean (store_bare clean value o m) ≡ some value
  store_bare-lookup clean value none m h = h
  store_bare-lookup clean value (some s) m h = ground (arith, lookup-put s clean value m)

-- The hashes of a file: in hexadecimal, and SHA-256 and SHA-512 in base 64.
pub record Hashes : Type 0 where
  pub sha256_hex : Text → Text
  pub sha256_base64 : Text → Text
  pub sha512_base64 : Text → Text

-- The sum of a file, with what the digest that is expected says in the same form, and whether they agree.
abbrev pub agrees : Hashes → Text → Text → Bool
agrees h exp content =
    if has_prefix (codes "sha512-") exp
    then h.sha512_base64 content === trim_prefix exp (codes "sha512-")
    else if has_prefix (codes "sha256-") exp
    then h.sha256_base64 content === trim_prefix exp (codes "sha256-")
    else equal_fold (h.sha256_hex content) exp

-- How the check of a file ends; the file is removed on a mismatch alone.
pub data Verified : Type 0 where
  verified unreadable mismatch : Verified

module _ (bare : Text → Option Text) (hashes : Hashes) where
  abbrev pub remember_both : Text → Text → Text → Text → Assoc Text → Assoc Text
  remember_both exp content source url m =
      if is_sri exp
      then remember_integrity bare url exp (remember_integrity bare source exp m)
      else (let sum = hashes.sha256_hex content in
          remember_digest bare url sum (remember_digest bare source sum m))

  abbrev pub verify_content : Text → Option Text → Text → Text → Assoc Text → Assoc Text × Verified
  verify_content exp none source url m = (m, unreadable)
  verify_content exp (some content) source url m =
      if agrees hashes exp content
      then (remember_both exp content source url m, verified)
      else (m, mismatch)

  -- verifyAndRemember; `file` is what can be read of the file.
  unfoldable pub verify_and_remember :
      Text → Option Text → Text → Text → Assoc Text → Assoc Text × Verified
  verify_and_remember expected file source url m =
      let exp = trim_space expected in
      if is_empty exp then (m, verified) else verify_content exp file source url m

hex64_there : (d : Text) → is_hex64 d ≡ true → is_empty d ≡ false
hex64_there [] h = cc
hex64_there (c ∷ d) h = refl

put_same : (k v : Text) (m : Assoc Text) → lookup k (put k v m) ≡ some v
put_same k v m = ground (arith, lookup-put k k v m)

lookup_found :
    (bare : Text → Option Text) (url clean v : Text) (m : Assoc Text)
    → strip_fragment url ≡ clean
    → lookup clean m ≡ some v
    → lookup_digest bare url m ≡ v
unfolding lookup_digest
lookup_found bare url clean v m same h =
    let found : lookup (strip_fragment url) m ≡ some v = ap (λ k. lookup k m) same ∙ h in
    rw (lookup_digest, found) refl

-- A digest in hexadecimal digits that an index gives for a URL is found again, in small letters,
-- under every URL that differs from it in the fragment only.
pub lookup_digest-remember_digest :
    (bare : Text → Option Text) (url other sha256hex : Text) (m : Assoc Text)
    → is_hex64 (to_lower (trim_space sha256hex)) ≡ true
    → is_empty (strip_fragment url) ≡ false
    → strip_fragment other ≡ strip_fragment url
    → lookup_digest bare other (remember_digest bare url sha256hex m)
      ≡ to_lower (trim_space sha256hex)
unfolding remember_digest store_digest
lookup_digest-remember_digest bare url other sha256hex m hex there same =
    let d = to_lower (trim_space sha256hex) in
    let clean = strip_fragment url in
    let some_digest : is_empty d ≡ false = hex64_there d hex in
    let put_there : lookup clean (put clean d m) ≡ some d = put_same clean d m in
    let found = store_bare-lookup bare clean d (bare clean) (put clean d m) put_there in
    let stored : remember_digest bare url sha256hex m
        ≡ store_bare bare clean d (bare clean) (put clean d m) =
      rw (hex, there, some_digest) refl in
    rw stored (lookup_found bare other clean d _ same found)
