-- ===== src/RateLimit/Pausing.antt =====
-- The pause flags of the registry's limiters.
use mirrorhub.Base.{◌≡◌, Bool, true, false, [], ◌∷◌, arith, none}
use mirrorhub.Base.Text.{Text}
use mirrorhub.Base.Assoc.{Assoc, lookup, map_values, AllEntries, lookup-put, lookup-AllEntries}
use mirrorhub.RateLimit.{
  PlatformLimiter, Registry, set_prefetch_paused, set_all_paused, get, normalize_platform_name,
}

abbrev pub AllPaused : Bool → Registry → Type 0
AllPaused b r = AllEntries (λ _ l. l.prefetch_paused ≡ b) r.by_name

set_prefetch_paused_lem :
    (b : Bool) (l : PlatformLimiter) → (set_prefetch_paused b l).0.prefetch_paused ≡ b
unfolding set_prefetch_paused
set_prefetch_paused_lem true l = ground arith
set_prefetch_paused_lem false l = ground arith

map_values-paused :
    (b : Bool) (m : Assoc PlatformLimiter)
    → AllEntries (λ _ l. l.prefetch_paused ≡ b) (map_values (λ l. (set_prefetch_paused b l).0) m)
unfolding map_values
map_values-paused b [] = tt
map_values-paused b ((k, l) ∷ m) = (set_prefetch_paused_lem b l, map_values-paused b m)

pub set_all_paused-AllPaused : (b : Bool) (r : Registry) → AllPaused b (set_all_paused b r)
unfolding set_all_paused
set_all_paused-AllPaused b r = map_values-paused b r.by_name

-- A platform whose limiter is made while the others are paused is not paused.
get-unpaused :
    (platform : Text) (r : Registry)
    → lookup (normalize_platform_name platform) r.by_name ≡ none
    → (get platform r).1.prefetch_paused ≡ false
unfolding get
get-unpaused platform r fresh = ground arith

-- After Get for a platform that had no limiter, not all limiters are paused, whatever had been
-- paused before.
pub get-breaks_pause :
    (platform : Text) (r : Registry)
    → lookup (normalize_platform_name platform) r.by_name ≡ none
    → ¬ AllPaused true (get platform r).0
unfolding get
get-breaks_pause platform r fresh paused =
    let name = normalize_platform_name platform in
    let lim = (get platform r).1 in
    absurd (
      ground (
        arith,
        lookup-AllEntries (λ _ l. l.prefetch_paused ≡ true) name lim _ paused
            (ground (arith, lookup-put name name lim r.by_name)),
        get-unpaused platform r fresh,
      ))
