-- ===== src/HostGovernor/Pressure.antt =====
-- How the limits of a host move: one up at a time, halved under pressure.
use mirrorhub.Base.{ℕ, ◌+◌, ◌/◌, ◌≤◌, ◌<◌, ◌≡◌, refl, List, [], ◌∷◌, arith, max, for_each, All}
use mirrorhub.HostGovernor.{HostState, observe_success, observe_rate_limit, gov_pressure_window}
use mirrorhub.HostGovernor.Bounds.{IsSane, Call-IsSane, Call}

-- For a host within its bounds, a success lets the chunks climb by at most one, never lowers them, and never raises
-- them past the ceiling; the same holds of its files, whose ceiling is four.
pub climb_by_one :
    (st : HostState) (now : ℕ)
    → IsSane st
    → let st' = observe_success now st in
      (st.effective ≤ st'.effective)
      × (st'.effective ≤ st.effective + 1)
      × (st'.effective ≤ max st.effective st'.ceiling)
      × (st.file_effective ≤ st'.file_effective)
      × (st'.file_effective ≤ st.file_effective + 1)
      × (st'.file_effective ≤ 4)
unfolding observe_success
climb_by_one st now h =
    (ground arith, ground arith, ground arith, ground arith, ground arith, ground arith)

-- What a host has while it cools down: the moment of the pressure and both limits.
record IsCooling (t e f : ℕ) (st : HostState) : Type 0 where
  since : st.last_pressure ≡ t
  chunks : st.effective ≡ e
  files : st.file_effective ≡ f
  sane : IsSane st

halved-IsCooling :
    (t : ℕ) (st : HostState)
    → IsSane st
    → IsCooling t
        (max 1 (st.effective / 2))
        (max 1 (st.file_effective / 2))
        (observe_rate_limit t st)
unfolding observe_rate_limit
halved-IsCooling t st h = record {
  since = refl;
  chunks = ground arith;
  files = ground arith;
  sane = Call-IsSane (Call.is_rate_limited st t) h;
}

success-IsCooling :
    (t e f now : ℕ) (st : HostState)
    → 0 < t
    → now < t + gov_pressure_window
    → IsCooling t e f st
    → IsCooling t e f (observe_success now st)
unfolding observe_success
success-IsCooling t e f now st p early h = record {
  since = ground (arith, h.sane);
  chunks = ground (arith, h.sane);
  files = ground (arith, h.sane);
  sane = Call-IsSane (Call.succeeds st now) h.sane;
}

successes-IsCooling :
    (t e f : ℕ) (times : List ℕ) (st : HostState)
    → 0 < t
    → All (λ now. now < t + gov_pressure_window) times
    → IsCooling t e f st
    → IsCooling t e f (for_each observe_success times st)
unfolding for_each
successes-IsCooling t e f [] st p early h = h
successes-IsCooling t e f (now ∷ times) st p early h =
    successes-IsCooling t e f times (observe_success now st) p early.1
      (success-IsCooling t e f now st p early.0 h)

-- For a host within its bounds, a rate limit at any time after Go's zero time halves both limits,
-- but never below one, and no number of successes within the next sixty seconds changes them.
pub cool_down :
    (st : HostState) (t : ℕ) (times : List ℕ)
    → IsSane st
    → 0 < t
    → All (λ now. now < t + gov_pressure_window) times
    → let st' = for_each observe_success times (observe_rate_limit t st) in
      (st'.effective ≡ max 1 (st.effective / 2))
      × (st'.file_effective ≡ max 1 (st.file_effective / 2))
cool_down st t times h p early =
    let c = successes-IsCooling t _ _ times _ p early (halved-IsCooling t st h) in
    (c.chunks, c.files)
