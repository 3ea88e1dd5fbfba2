-- ===== src/Examples/Settings.antt =====
-- Runs of config.go.
use mirrorhub.Base.{◌≡◌, true, arith}
use mirrorhub.Config.Windows.{hm, in_hm_window}
use mirrorhub.Config.Windows.Clock.{in_hm_window_lem}

-- Half past eleven at night lies in the window from 22:00 to 06:30.
in_hm_window_lem_example : in_hm_window (hm 23 30) (hm 22 0) (hm 6 30) ≡ true
in_hm_window_lem_example =
    in_hm_window_lem 23 30 22 0 6 30 (omega arith) (omega arith) (omega arith) (omega arith)
      (omega arith) (omega arith)
