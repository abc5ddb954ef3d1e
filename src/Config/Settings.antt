-- ===== src/Config/Settings.antt =====
-- Saving the configuration and opening it again.
use hdns.Prelude.{◌≡◌, refl}
use hdns.RecordsTable.State.{success}
use hdns.Config.Form.{ConfigDrawer, patch, payload, on_config}

-- Whatever the form held when it was saved, a drawer that is opened on the configuration that was
-- sent, and saved with nothing changed, sends the same configuration again.
pub resave :
    (s t : ConfigDrawer) → payload (on_config (success (payload s.form)) t).form ≡ payload s.form
unfolding payload on_config patch
resave s t = refl
