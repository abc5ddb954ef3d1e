-- ===== src/AddressCard/History.antt =====
-- The drawer with the history of the addresses.
use hdns.Prelude.{String, Bool, true, false, Option, List, [], ◌∷◌, ◌++◌, get_or}
use hdns.Model.Messages.{Address, AddressHistory}
use hdns.RecordsTable.State.{Answer, success, failure}

pub data Effect : Type 0 where
  open_drawer get_address_history : Effect
  error : Option String → String → Effect

pub record History : Type 0 where
  pub addresses : List Address
  pub loading : Bool
  pub effects : List Effect

abbrev pub new_history : History
new_history = record { addresses = []; loading = true; effects = [] }

unfoldable pub open_history : History → History
open_history s = record s { effects = s.effects ++ open_drawer ∷ get_address_history ∷ [] }

unfoldable pub on_history : Answer AddressHistory → History → History
on_history (success res) s = record s { addresses = get_or res.addresses []; loading = false }
on_history (failure e) s = record s {
  loading = false;
  effects = s.effects ++ error e "Failed to load history" ∷ [];
}
