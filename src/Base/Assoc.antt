-- ===== src/Base/Assoc.antt =====
-- Go maps with string keys, as association lists.
use Prim.Native.Nat.{ℕ, ◌+◌}
use mathlib.Core.Path.{◌≡◌, refl}
use mathlib.Core.Option.{Option, none, some}
use mathlib.Core.List.{List, [], ◌∷◌}
use native.Mathlib.Omega.{arith}
use mirrorhub.Base.Tests.{if◌then◌else◌}
use mirrorhub.Base.Text.{Text, ◌===◌}

abbrev pub Assoc {ℓ} : Type ℓ → Type ℓ
Assoc V = List (Text × V)

module _ {ℓ} {V : Type ℓ} where
  -- `m[k]`
  unfoldable pub lookup : Text → Assoc V → Option V
  lookup k [] = none
  lookup k ((j, v) ∷ m) = if j === k then some v else lookup k m

  -- `m[k] = v`
  unfoldable pub put : Text → V → Assoc V → Assoc V
  put k v [] = (k, v) ∷ []
  put k v ((j, w) ∷ m) = if j === k then (k, v) ∷ m else (j, w) ∷ put k v m

  -- `delete(m, k)`
  unfoldable pub without : Text → Assoc V → Assoc V
  without k [] = []
  without k ((j, v) ∷ m) = let rest = without k m in if j === k then rest else (j, v) ∷ rest

  -- `for k, v := range m { m[k] = f(v) }`
  unfoldable pub map_values : (V → V) → Assoc V → Assoc V
  map_values f [] = []
  map_values f ((j, v) ∷ m) = (j, f v) ∷ map_values f m

  unfoldable pub keys : Assoc V → List Text
  keys [] = []
  keys ((j, v) ∷ m) = j ∷ keys m

  -- The sum of a weight over the values.
  unfoldable pub tally : (V → ℕ) → Assoc V → ℕ
  tally w [] = 0
  tally w ((j, v) ∷ m) = w v + tally w m

  abbrev pub AllEntries {κ} : (Text → V → Type κ) → Assoc V → Type κ
  AllEntries P [] = Unit
  AllEntries P ((j, v) ∷ m) = P j v × AllEntries P m

  -- No key stands twice.
  abbrev pub Distinct : Assoc V → Type ℓ
  Distinct [] = Unit
  Distinct ((j, v) ∷ m) = (lookup j m ≡ none) × Distinct m

  pub lookup-put :
      (k j : Text) (v : V) (m : Assoc V)
      → lookup j (put k v m) ≡ (if k === j then some v else lookup j m)
  unfolding lookup put
  lookup-put k j v [] = ground arith
  lookup-put k j v ((i, w) ∷ m) = ground (arith, lookup-put k j v m)

  pub lookup-without :
      (k j : Text) (m : Assoc V) → lookup j (without k m) ≡ (if k === j then none else lookup j m)
  unfolding lookup without
  lookup-without k j [] = ground arith
  lookup-without k j ((i, w) ∷ m) = ground (arith, lookup-without k j m)

  pub lookup-map_values :
      (f : V → V) (j : Text) (m : Assoc V)
      → lookup j (map_values f m) ≡ elim (lookup j m) [ none ↦ none | some v ↦ some (f v) ]
  unfolding lookup map_values
  lookup-map_values f j [] = ground arith
  lookup-map_values f j ((i, w) ∷ m) = ground (arith, lookup-map_values f j m)

  pub put-Distinct : (k : Text) (v : V) (m : Assoc V) → Distinct m → Distinct (put k v m)
  unfolding lookup put
  put-Distinct k v [] d = (refl, tt)
  put-Distinct k v ((i, w) ∷ m) d = ground (arith, put-Distinct k v m d.1, lookup-put k i v m)

  pub without-Distinct : (k : Text) (m : Assoc V) → Distinct m → Distinct (without k m)
  unfolding lookup without
  without-Distinct k [] d = tt
  without-Distinct k ((i, w) ∷ m) d = ground (arith, without-Distinct k m d.1, lookup-without k i m)

  pub map_values-Distinct : (f : V → V) (m : Assoc V) → Distinct m → Distinct (map_values f m)
  unfolding lookup map_values
  map_values-Distinct f [] d = tt
  map_values-Distinct f ((i, w) ∷ m) d =
      ground (arith, map_values-Distinct f m d.1, lookup-map_values f i m)

  pub put-AllEntries {κ} :
      (P : Text → V → Type κ) (k : Text) (v : V) (m : Assoc V)
      → P k v
      → AllEntries P m
      → AllEntries P (put k v m)
  unfolding put
  put-AllEntries P k v [] p h = (p, tt)
  put-AllEntries P k v ((i, w) ∷ m) p h = ground (arith, put-AllEntries P k v m p h.1)

  pub without-AllEntries {κ} :
      (P : Text → V → Type κ) (k : Text) (m : Assoc V) → AllEntries P m → AllEntries P (without k m)
  unfolding without
  without-AllEntries P k [] h = tt
  without-AllEntries P k ((i, w) ∷ m) h = ground (arith, without-AllEntries P k m h.1)

  pub lookup-AllEntries {κ} :
      (P : Text → V → Type κ) (k : Text) (v : V) (m : Assoc V)
      → AllEntries P m
      → lookup k m ≡ some v
      → P k v
  unfolding lookup
  lookup-AllEntries P k v [] h e = cc
  lookup-AllEntries P k v ((i, w) ∷ m) h e = ground (arith, lookup-AllEntries P k v m h.1)

  pub tally-put_new :
      (w : V → ℕ) (k : Text) (v : V) (m : Assoc V)
      → lookup k m ≡ none
      → tally w (put k v m) ≡ tally w m + w v
  unfolding lookup put tally
  tally-put_new w k v [] e = omega arith
  tally-put_new w k v ((i, u) ∷ m) e = ground (arith, tally-put_new w k v m)

  pub tally-put :
      (w : V → ℕ) (k : Text) (u v : V) (m : Assoc V)
      → lookup k m ≡ some u
      → tally w (put k v m) + w u ≡ tally w m + w v
  unfolding lookup put tally
  tally-put w k u v [] e = cc
  tally-put w k u v ((i, x) ∷ m) e = ground (arith, tally-put w k u v m)

  pub without_absent : (k : Text) (m : Assoc V) → lookup k m ≡ none → without k m ≡ m
  unfolding lookup without
  without_absent k [] e = refl
  without_absent k ((i, x) ∷ m) e = ground (arith, without_absent k m)

  pub tally-without :
      (w : V → ℕ) (k : Text) (u : V) (m : Assoc V)
      → Distinct m
      → lookup k m ≡ some u
      → tally w (without k m) + w u ≡ tally w m
  unfolding lookup without tally
  tally-without w k u [] d e = cc
  tally-without w k u ((i, x) ∷ m) d e =
      ground (arith, tally-without w k u m d.1, without_absent k m)

  pub tally-map_values :
      (w : V → ℕ) (f : V → V)
      → ((v : V) → w (f v) ≡ w v)
      → (m : Assoc V) → tally w (map_values f m) ≡ tally w m
  unfolding tally map_values
  tally-map_values w f h [] = refl
  tally-map_values w f h ((i, x) ∷ m) = ground (arith, h x, tally-map_values w f h m)
