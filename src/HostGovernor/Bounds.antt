-- ===== src/HostGovernor/Bounds.antt =====
-- The bounds that every history of calls keeps, for every host.
use mirrorhub.Base.{ℕ, ◌≤◌, ◌≡◌, subst, some, [], arith, ℤ, positive_or, inl, inr, Option-cases}
use mirrorhub.Base.Text.{Text, text_dec}
use mirrorhub.Base.Assoc.{lookup, put, lookup-put}
use mirrorhub.RateLimit.Sizes.{positive_or_pos}
use mirrorhub.HostGovernor.{
  HostState, HostGovernor, new_state, host_name, state, limit, observe_success, observe_rate_limit,
  observe_stall, try_begin_prefetch, end_prefetch,
}

-- A call on the state of a host.
pub data Call : HostState → HostState → Type 0 where
  limits : (st : HostState) (ceiling : ℤ) → Call st (limit ceiling st)
  succeeds : (st : HostState) (now : ℕ) → Call st (observe_success now st)
  is_rate_limited : (st : HostState) (now : ℕ) → Call st (observe_rate_limit now st)
  stalls : (st : HostState) (now : ℕ) → Call st (observe_stall now st)
  begins : (st : HostState) → Call st (try_begin_prefetch st).0
  ends : (st : HostState) → Call st (end_prefetch st)

pub record IsSane (st : HostState) : Type 0 where
  pub some_chunks : 1 ≤ st.effective
  pub some_files : 1 ≤ st.file_effective
  pub files_fit : st.file_effective ≤ st.file_ceiling
  pub file_ceiling_fixed : st.file_ceiling ≡ 4
  pub inflight_fits : st.inflight_prefetch ≤ 4

pub Call-IsSane : {st st' : HostState} → Call st st' → IsSane st → IsSane st'
unfolding limit observe_success observe_rate_limit observe_stall try_begin_prefetch end_prefetch
Call-IsSane (limits st ceiling) h = ground (arith, positive_or_pos ceiling 8)
Call-IsSane (succeeds st now) h = ground arith
Call-IsSane (is_rate_limited st now) h = ground arith
Call-IsSane (stalls st now) h = ground arith
Call-IsSane (begins st) h = ground arith
Call-IsSane (ends st) h = ground arith

new_state-IsSane : (now : ℕ) → IsSane (new_state now)
new_state-IsSane now = omega arith

-- A call on a host of the governor, whose state is made if it has none.
pub data Step : HostGovernor → HostGovernor → Type 0 where
  call :
      (g : HostGovernor) (host : Text) (now : ℕ) (st : HostState)
      → Call (state host now g) st
      → Step g (put (host_name host) st g)

pub data Reach (g : HostGovernor) : HostGovernor → Type 0 where
  here : Reach g g
  next : {g' g'' : HostGovernor} → Reach g g' → Step g' g'' → Reach g g''

abbrev pub AllSane : HostGovernor → Type 0
AllSane g = (host : Text) (st : HostState) → lookup host g ≡ some st → IsSane st

pub state-IsSane :
    (host : Text) (now : ℕ) (g : HostGovernor) → AllSane g → IsSane (state host now g)
unfolding state
state-IsSane host now g h = elim (Option-cases (lookup (host_name host) g)) [
  | inl e ↦ rw (e, state) (new_state-IsSane now)
  | inr (st, e) ↦ rw (e, state) (h (host_name host) st e)
]

put-AllSane :
    (k : Text) (st : HostState) (g : HostGovernor) → IsSane st → AllSane g → AllSane (put k st g)
put-AllSane k st g sane h host st' e = elim (text_dec k host) [
  | yes same ↦ subst IsSane (ground (arith, e, lookup-put k host st g)) sane
  | no other ↦ h host st' (ground (arith, e, lookup-put k host st g))
]

Reach-AllSane : {g g' : HostGovernor} → AllSane g → Reach g g' → AllSane g'
Reach-AllSane h here = h
Reach-AllSane h (next r (call g host now st c)) =
    let rest = Reach-AllSane h r in
    put-AllSane (host_name host) st g (Call-IsSane c (state-IsSane host now g rest)) rest

-- After any calls on any hosts, in any order and at any times, each host is allowed at least one
-- chunk at a time, between one and four prefetched files, and has at most four of them in flight;
-- what Limit then answers lies between one and the ceiling that it was given, or 8 where that is
-- not positive.
pub host_bounds :
    {g : HostGovernor} (host : Text) (now : ℕ) (ceiling : ℤ)
    → Reach [] g
    → let st = state host now g in
      (1 ≤ st.effective)
      × (1 ≤ st.file_effective)
      × (st.file_effective ≤ 4)
      × (st.inflight_prefetch ≤ 4)
      × (1 ≤ (limit ceiling st).effective)
      × ((limit ceiling st).effective ≤ positive_or ceiling 8)
unfolding limit lookup
host_bounds {g} host now ceiling r =
    let h = state-IsSane host now g (Reach-AllSane (λ _ _ e. cc) r) in
    (
      h.some_chunks,
      h.some_files,
      omega (arith, h.files_fit, h.file_ceiling_fixed),
      h.inflight_fits,
      ground (arith, positive_or_pos ceiling 8),
      ground arith,
    )
