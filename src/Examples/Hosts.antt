-- ===== src/Examples/Hosts.antt =====
-- Runs of hostgov.go.
use mirrorhub.Base.{◌≤◌, ◌≡◌, [], ◌∷◌, arith, max, ◌/◌, for_each, pos}
use mirrorhub.Base.Text.{Text, codes}
use mirrorhub.HostGovernor.{
  HostState, HostGovernor, new_state, state, host_name, limit, observe_success, observe_rate_limit,
}
use mirrorhub.HostGovernor.Bounds.{Call, Step, Reach, host_bounds}
use mirrorhub.HostGovernor.Pressure.{cool_down}
use mirrorhub.Base.Assoc.{put}

abbrev host : Text
host = codes "pypi.org"

abbrev limited : HostGovernor
limited = put (host_name host) (limit (pos 16) (state host 5 [])) []

host_bounds_example :
    let st = state host 9 limited in
    (1 ≤ st.effective)
    × (1 ≤ st.file_effective)
    × (st.file_effective ≤ 4)
    × (st.inflight_prefetch ≤ 4)
    × (1 ≤ (limit (pos 16) st).effective)
    × ((limit (pos 16) st).effective ≤ 16)
host_bounds_example =
    host_bounds host 9 (pos 16)
      (Reach.next Reach.here (Step.call [] host 5 _ (Call.limits _ (pos 16))))

abbrev grown : HostState
grown = record (new_state 7) { effective = 6; ceiling = 8; file_effective = 4 }

cool_down_example :
    let st' = for_each observe_success (101 ∷ 102 ∷ []) (observe_rate_limit 100 grown) in
    (st'.effective ≡ max 1 (grown.effective / 2))
    × (st'.file_effective ≡ max 1 (grown.file_effective / 2))
cool_down_example = cool_down grown 100 (101 ∷ 102 ∷ []) (omega arith) (omega arith) (omega arith)
