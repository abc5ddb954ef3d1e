-- ===== src/AddressCard/Tests.antt =====
-- The card at concrete runs.
use hdns.Prelude.{◌≡◌, refl, false, none, some}
use hdns.RecordsTable.State.{success, failure}
use hdns.AddressCard.{new_card, on_connect, refresh, on_refreshed, leave}
use hdns.AddressCard.Runs.{Run, start, connects, clicks, answers, leaves, IsServed, Run-IsServed}
use hdns.AddressCard.History.{new_history, open_history, on_history}

-- A connection, a refresh that fails, and the end.
abbrev run : Run 1 (leave (on_refreshed (failure (some "offline")) (refresh (on_connect new_card))))
unfolding on_connect refresh on_refreshed
run = leaves (answers (failure (some "offline")) (clicks (connects start) refl) refl) refl

Run-IsServed_example :
    IsServed 1 (leave (on_refreshed (failure (some "offline")) (refresh (on_connect new_card))))
Run-IsServed_example =
    Run-IsServed 1 (leave (on_refreshed (failure (some "offline")) (refresh (on_connect new_card))))
      run

-- The list is loading from the start, and not again when the drawer is opened once more.
second_open :
    (open_history
      (on_history (success (record { addresses = none })) (open_history new_history))).loading
    ≡ false
unfolding open_history on_history
second_open = refl
