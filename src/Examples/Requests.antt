-- ===== src/Examples/Requests.antt =====
-- Runs of traffic.go.
use mirrorhub.Base.{◌≡◌, true, none, [], ◌∷◌, ◌++◌, for_each, last_of, pos}
use mirrorhub.Base.Text.{codes}
use mirrorhub.Traffic.{Access, Recorder, new}
use mirrorhub.Traffic.Recent.{note, log, recent_is_last}

abbrev hit : Access
hit = record {
  at = 0;
  ip = codes "10.0.0.1";
  method = codes "GET";
  path = codes "/simple/";
  platform = codes "pypi";
  bytes = pos 512;
  cache = codes "hit";
  status = codes "ok";
}

abbrev busy : Recorder
busy = record { down = 7; up = 9; samples = []; recent = hit ∷ hit ∷ hit ∷ []; dirty = true }

recent_is_last_example :
    (for_each note ((5, hit) ∷ (6, hit) ∷ []) (new none)).recent
    ≡ last_of 200 ((new none).recent ++ log ((5, hit) ∷ (6, hit) ∷ []))
recent_is_last_example = recent_is_last none ((5, hit) ∷ (6, hit) ∷ [])
