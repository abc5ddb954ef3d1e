-- ===== src/AddressCard.antt =====
-- frontend/src/app/pages/home/sections/address-card/address-card.component.ts: the card with the
-- current address; and
-- frontend/src/app/pages/home/drawers/address-history/address-history-drawer.component.ts in
-- History.
pub mod History
pub mod Runs
mod Tests
use hdns.Prelude.{
  ℕ, suc, ◌-◌, String, Bool, true, false, Option, none, some, List, [], ◌∷◌, ◌++◌, if◌then◌else◌,
}
use hdns.Model.Messages.{Address}
use hdns.RecordsTable.State.{Answer, success, failure}

-- What the card does to the rest of the program.
pub data Effect : Type 0 where
  send close_stream : Effect
  message : String → Effect
  error : Option String → String → Effect

-- `listening` says whether the subscriptions of `ngOnInit` are there, and `pending` counts the
-- answers to `refreshAddress` that are awaited.
pub record AddressCard : Type 0 where
  pub address : Option Address
  pub refreshing : Bool
  pub connected : Bool
  pub listening : Bool
  pub pending : ℕ
  pub effects : List Effect

abbrev pub new_card : AddressCard
new_card = record {
  address = none;
  refreshing = false;
  connected = false;
  listening = true;
  pending = 0;
  effects = [];
}

abbrev pub emit : Effect → AddressCard → AddressCard
emit e s = record s { effects = s.effects ++ e ∷ [] }

unfoldable pub on_connect : AddressCard → AddressCard
on_connect s = if s.listening then emit send (record s { connected = true }) else s

unfoldable pub on_terminate : AddressCard → AddressCard
on_terminate s = if s.listening then record s { connected = false } else s

-- `toSignal(this.stream.messages$)`
unfoldable pub on_current_address : Address → AddressCard → AddressCard
on_current_address a s = if s.listening then record s { address = some a } else s

-- The text of the error is what the source makes of it.
unfoldable pub on_messages_error : String → AddressCard → AddressCard
on_messages_error text s =
    if s.listening
    then emit (error (some text) "Address stream error") (record s { connected = false })
    else s

unfoldable pub leave : AddressCard → AddressCard
leave s = emit close_stream (record s { listening = false })

unfoldable pub refresh : AddressCard → AddressCard
refresh s = record s { refreshing = true; pending = suc s.pending }

unfoldable pub on_refreshed : Answer Address → AddressCard → AddressCard
on_refreshed (success a) s =
    emit (message "Address refreshed successfully.")
      (record s { refreshing = false; pending = s.pending - 1 })
on_refreshed (failure e) s =
    emit (error e "Refresh failed") (record s { refreshing = false; pending = s.pending - 1 })
