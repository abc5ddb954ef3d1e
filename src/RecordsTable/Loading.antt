-- ===== src/RecordsTable/Loading.antt =====
-- The list of records and the addresses that belong to it.
use hdns.Prelude.{String, Option, none, some, List, [], ◌∷◌, get_or, str_eq, if◌then◌else◌}
use hdns.Prelude.IdSet
use hdns.Prelude.IdMap
use hdns.Model.Messages.{Record, Address, Resolution}
use hdns.RecordsTable.Purpose.{record_does_ddns}
use hdns.RecordsTable.State.{
  Answer, success, failure, await_address, await_records, await_hetzner, await_resolved,
  RecordsTable, error, wait, show, address_text,
}

unfoldable pub load_wanted_ip : RecordsTable → RecordsTable
load_wanted_ip s = wait await_address s

unfoldable pub on_address : Answer (Option Address) → RecordsTable → RecordsTable
on_address (success addr) s = record s { wanted_ip = address_text addr }
on_address (failure e) s = record s { wanted_ip = "" }

unfoldable pub load : Option String → RecordsTable → RecordsTable
load search s = wait (await_records search) s

unfoldable pub load_hetzner_ip : Record → RecordsTable → RecordsTable
load_hetzner_ip r s =
    wait (await_hetzner r) (record s { loading_hetzner = IdSet.add s.loading_hetzner r.id })

unfoldable pub load_resolved_ip : Record → RecordsTable → RecordsTable
load_resolved_ip r s =
    wait (await_resolved r) (record s { loading_resolved = IdSet.add s.loading_resolved r.id })

-- The loop over the records of an answer.
unfoldable pub load_ips : List Record → RecordsTable → RecordsTable
unfolding load_hetzner_ip load_resolved_ip
load_ips [] s = s
load_ips (r ∷ rs) s =
    load_ips rs (if record_does_ddns r then load_resolved_ip r (load_hetzner_ip r s) else s)

unfoldable pub on_records : Answer (Option (List Record)) → RecordsTable → RecordsTable
on_records (success res) s =
    let records = get_or res [] in
    load_ips records (record s { records = records; hetzner_ips = []; resolved_ips = [] })
on_records (failure e) s = show (error e "Failed to load records") s

unfoldable pub on_hetzner : Record → Answer (Option Address) → RecordsTable → RecordsTable
on_hetzner r (success addr) s = record s {
  hetzner_ips = IdMap.set s.hetzner_ips r.id (address_text addr);
  loading_hetzner = IdSet.delete s.loading_hetzner r.id;
}
on_hetzner r (failure e) s = record s { loading_hetzner = IdSet.delete s.loading_hetzner r.id }

-- `r.addresses && r.addresses.length > 0`, and the first of them
abbrev pub first_address : Option (List String) → Option String
first_address none = none
first_address (some []) = none
first_address (some (a ∷ as')) = some a

unfoldable pub pick_resolved_address : List Resolution → String
pick_resolved_address [] = ""
pick_resolved_address (r ∷ rs) =
    let rest = pick_resolved_address rs in
    if str_eq r.error "" then get_or (first_address r.addresses) rest else rest

unfoldable pub on_resolved :
    Record → Answer (Option (List Resolution)) → RecordsTable → RecordsTable
unfolding pick_resolved_address
on_resolved r (success res) s = record s {
  resolved_ips = IdMap.set s.resolved_ips r.id (pick_resolved_address (get_or res []));
  loading_resolved = IdSet.delete s.loading_resolved r.id;
}
on_resolved r (failure e) s = record s { loading_resolved = IdSet.delete s.loading_resolved r.id }
