-- ===== src/Overview/Labels.antt =====
-- The texts and the looks of the page.
use hdns.Prelude.{ℕ, zero, suc, String, ◌||◌, str_eq, if◌then◌else◌}

unfoldable pub trigger_label : ℕ → String
trigger_label (suc zero) = "On IP update"
trigger_label (suc (suc zero)) = "On cert renewal"
trigger_label (suc (suc (suc zero))) = "On IP & cert"
trigger_label _ = "Unknown"

unfoldable pub status_class : String → String
status_class status =
    if str_eq status "valid" || str_eq status "success"
    then "status-ok"
    else if str_eq status "failed"
    then "status-err"
    else "status-warn"

unfoldable pub status_icon : String → String
status_icon status =
    if str_eq status "valid" || str_eq status "success"
    then "verified"
    else if str_eq status "failed"
    then "error"
    else "hourglass_empty"
