-- ===== src/RecordsTable/State.antt =====
-- The state of the component, what it waits for, and what it shows.
use hdns.Prelude.{ℕ, String, Bool, Option, none, some, List, [], ◌∷◌, ◌++◌, str_eq, if◌then◌else◌}
use hdns.Model.Messages.{Record, Address}

-- An answer of the server, or what `err?.error` is.
pub data Answer (A : Type 0) : Type 0 where
  success : A → Answer A
  failure : Option String → Answer A

-- A continuation that waits for an answer or a timer. `await_records` has the text of the search.
pub data Pending : Type 0 where
  await_address : Pending
  await_records : Option String → Pending
  await_hetzner await_resolved await_refresh await_issue : Record → Pending
  poll_timer await_poll : ℕ → ℕ → Pending
  await_delete : Record → Bool → Pending

-- What the user gets to see; the texts that name a record are left to the view. A dialog keeps the
-- record that its handler is for.
pub data Notice : Type 0 where
  message : String → Notice
  issuing_message : Record → Notice
  error : Option String → String → Notice
  renew_dialog delete_dialog : Record → Notice
  overview : ℕ → Notice

pub record RecordsTable : Type 0 where
  pub records : List Record
  pub search_term : String
  pub wanted_ip : String
  pub hetzner_ips : List (ℕ × String)
  pub resolved_ips : List (ℕ × String)
  pub loading_hetzner : List ℕ
  pub loading_resolved : List ℕ
  pub issuing : List ℕ
  pub pending : List Pending
  pub notices : List Notice

abbrev pub new_table : RecordsTable
new_table = record {
  records = [];
  search_term = "";
  wanted_ip = "";
  hetzner_ips = [];
  resolved_ips = [];
  loading_hetzner = [];
  loading_resolved = [];
  issuing = [];
  pending = [];
  notices = [];
}

abbrev pub wait : Pending → RecordsTable → RecordsTable
wait p s = record s { pending = s.pending ++ p ∷ [] }

abbrev pub show : Notice → RecordsTable → RecordsTable
show n s = record s { notices = s.notices ++ n ∷ [] }

-- `a || b` on texts
abbrev pub or_text : String → String → String
or_text a b = if str_eq a "" then b else a

-- `addr?.ipv4 || addr?.ipv6 || ''`
unfoldable pub address_text : Option Address → String
address_text none = ""
address_text (some a) = or_text a.ipv4 a.ipv6
