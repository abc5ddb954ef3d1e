-- ===== src/RecordsTable/Tests.antt =====
-- The theorems on the table at concrete runs.
use hdns.Prelude.{◌≡◌, ◌≤◌, ◌*◌, refl, List, false, none, some, [], ◌∷◌, ◌++◌}
use hdns.Prelude.IdSet.{has}
use hdns.Model.Samples.{home_record}
use hdns.RecordsTable.State.{success, failure, await_records, RecordsTable, new_table}
use hdns.Model.Messages.{Resolution}
use hdns.RecordsTable.Resolved.{all_addresses, pick_resolved_address-first}
use hdns.RecordsTable.Loading.{load, pick_resolved_address}
use hdns.RecordsTable.Certificates.{
  act, do_issue_certificate, handle, on_issue, poll_certificate, confirm_issue, issued, timer_fired,
  Run, here, next, user, answer,
}
use hdns.RecordsTable.Spinners.Runs.{idle-no_spinner}
use hdns.RecordsTable.Polling.Runs.{count_requests, count_issuances, polls_bounded}

abbrev issuing : RecordsTable
issuing = act (confirm_issue home_record) new_table

abbrev failed : RecordsTable
failed = handle (issued home_record (failure none)) (record issuing { pending = [] ++ [] })

abbrev failed_run : Run new_table failed
unfolding act do_issue_certificate
failed_run =
    next (next here (user (confirm_issue home_record)))
      (answer [] (issued home_record (failure none)) [] refl)

idle-no_spinner_example :
    (has failed.loading_hetzner 7 ≡ false)
    × (has failed.loading_resolved 7 ≡ false)
    × (has failed.issuing 7 ≡ false)
idle-no_spinner_example =
    idle-no_spinner failed_run (unfold act do_issue_certificate handle on_issue in refl) 7

abbrev started : RecordsTable
started = handle (issued home_record (success tt)) (record issuing { pending = [] ++ [] })

abbrev asking : RecordsTable
asking = handle (timer_fired 7 0) (record started { pending = (await_records none ∷ []) ++ [] })

abbrev asking_run : Run new_table asking
unfolding act do_issue_certificate handle on_issue load poll_certificate
asking_run =
    next
      (next (next here (user (confirm_issue home_record)))
        (answer [] (issued home_record (success tt)) [] refl))
      (answer (await_records none ∷ []) (timer_fired 7 0) [] refl)

polls_bounded_example : count_requests asking_run ≤ 20 * count_issuances asking_run
polls_bounded_example = polls_bounded asking_run

abbrev answers : List Resolution
answers =
    (record {
      server = "1.1.1.1";
      addresses = some ("192.0.2.1" ∷ []);
      response_time = 3;
      error = "timeout";
    })
    ∷ (record { server = "8.8.8.8"; addresses = some []; response_time = 3; error = "" })
    ∷ (record {
      server = "9.9.9.9";
      addresses = some ("192.0.2.9" ∷ []);
      response_time = 3;
      error = "";
    })
    ∷ []

pick_resolved_address-first_example : pick_resolved_address answers ≡ "192.0.2.9"
unfolding all_addresses
pick_resolved_address-first_example = pick_resolved_address-first answers
