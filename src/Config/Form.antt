-- ===== src/Config/Form.antt =====
-- The state of the drawer, and its operations.
use Prim.Native.Char.{code}
use Prim.Native.String.{[], ◌∷◌}
use mathlib.Core.List.{List, ◌++◌}
use hdns.Prelude.{
  ℕ, zero, suc, String, Bool, true, false, not, ◌&&◌, ◌||◌, Option, none, some, get_or, ◌==◌,
  if◌then◌else◌, str_eq, trim, is_space,
}
use hdns.Model.Messages.{Configuration}
use hdns.RecordsTable.State.{Answer, success, failure}

-- The values of the controls; each may be null, as the control of a number is when it is emptied.
-- An agreement threshold stands by its decimal text.
pub record Values : Type 0 where
  pub log_level : Option ℕ
  pub refresh_cron : Option String
  pub dns_servers : Option (List String)
  pub ipv4_resolvers : Option (List String)
  pub ipv6_resolvers : Option (List String)
  pub ipv4_resolver_agreement_threshold : Option String
  pub ipv6_resolver_agreement_threshold : Option String
  pub ipv4_resolver_min_responses : Option ℕ
  pub ipv6_resolver_min_responses : Option ℕ
  pub notifications_enabled : Option Bool
  pub notifications_on_success : Option Bool
  pub notifications_recipients : Option (List String)
  pub notifications_cooldown_minutes : Option ℕ
  pub notifications_subject_prefix : Option String
  pub acme_enabled : Option Bool
  pub acme_email : Option String
  pub acme_staging : Option Bool
  pub acme_renew_before_days : Option ℕ

pub data Effect : Type 0 where
  open_drawer close_drawer get_config : Effect
  update_config : Configuration → Effect
  message : String → Effect
  error : Option String → String → Effect

pub record ConfigDrawer : Type 0 where
  pub loading : Bool
  pub saving : Bool
  pub form : Values
  pub effects : List Effect

abbrev pub emit : Effect → ConfigDrawer → ConfigDrawer
emit e s = record s { effects = s.effects ++ List.◌∷◌ e List.[] }

-- The controls that hold a list of texts.
pub data Field : Type 0 where
  dns_servers ipv4_resolvers ipv6_resolvers notifications_recipients : Field

-- `form.get(field)!.value ?? []`
unfoldable pub get_list : Field → Values → List String
get_list dns_servers v = get_or v.dns_servers List.[]
get_list ipv4_resolvers v = get_or v.ipv4_resolvers List.[]
get_list ipv6_resolvers v = get_or v.ipv6_resolvers List.[]
get_list notifications_recipients v = get_or v.notifications_recipients List.[]

-- `form.get(field)!.setValue(xs)`
unfoldable pub set_list : Field → List String → Values → Values
set_list dns_servers xs v = record v { dns_servers = some xs }
set_list ipv4_resolvers xs v = record v { ipv4_resolvers = some xs }
set_list ipv6_resolvers xs v = record v { ipv6_resolvers = some xs }
set_list notifications_recipients xs v = record v { notifications_recipients = some xs }

unfoldable pub add_to_array : Field → String → ConfigDrawer → ConfigDrawer
unfolding get_list set_list
add_to_array field value s =
    let trimmed = trim value in
    if str_eq trimmed "" then s else record s {
      form = set_list field (get_list field s.form ++ List.◌∷◌ trimmed List.[]) s.form;
    }

-- `[^\s@]`
abbrev plain : ℕ → Bool
plain c = not (is_space c || c == b'@')

all_plain : String → Bool
all_plain [] = true
all_plain (c ∷ s) = plain (code c) && all_plain s

-- Some point has a character after it.
inner_point : String → Bool
inner_point [] = false
inner_point (c ∷ s) = (code c == b'.' && not (str_eq s "")) || inner_point s

-- `[^\s@]+\.[^\s@]+$`
domain_part : String → Bool
unfolding all_plain inner_point
domain_part [] = false
domain_part (c ∷ s) = all_plain (c ∷ s) && inner_point s

-- `[^\s@]*@`, and the rest
local_part : String → Bool
unfolding domain_part
local_part [] = false
local_part (c ∷ s) = if code c == b'@' then domain_part s else plain (code c) && local_part s

-- `/^[^\s@]+@[^\s@]+\.[^\s@]+$/`
unfoldable pub is_email : String → Bool
unfolding local_part
is_email [] = false
is_email (c ∷ s) = plain (code c) && local_part s

unfoldable pub add_recipient : String → ConfigDrawer → ConfigDrawer
unfolding add_to_array
add_recipient value s =
    let trimmed = trim value in
    if str_eq trimmed ""
    then s
    else if not (is_email trimmed)
    then emit (error none "Invalid email address") s
    else add_to_array notifications_recipients trimmed s

-- `current.filter((_, i) => i !== index)`
unfoldable pub without_index : ℕ → List String → List String
without_index i List.[] = List.[]
without_index zero (List.◌∷◌ x xs) = xs
without_index (suc i) (List.◌∷◌ x xs) = List.◌∷◌ x (without_index i xs)

unfoldable pub remove_from_array : Field → ℕ → ConfigDrawer → ConfigDrawer
unfolding without_index get_list set_list
remove_from_array field index s = record s {
  form = set_list field (without_index index (get_list field s.form)) s.form;
}

-- The library's `moveItemInArray` is the parameter `move`.
unfoldable pub on_drop :
    (List String → ℕ → ℕ → List String) → Field → ℕ → ℕ → ConfigDrawer → ConfigDrawer
unfolding get_list set_list
on_drop move field previous current s =
    if previous == current
    then s
    else record s { form = set_list field (move (get_list field s.form) previous current) s.form }

-- The values that an answer of the service puts into the form.
unfoldable pub patch : Configuration → Values
patch cfg = record {
  log_level = some (get_or cfg.log_level 0);
  refresh_cron = cfg.refresh_cron;
  dns_servers = some (get_or cfg.dns_servers List.[]);
  ipv4_resolvers = some (get_or cfg.ipv4_resolvers List.[]);
  ipv6_resolvers = some (get_or cfg.ipv6_resolvers List.[]);
  ipv4_resolver_agreement_threshold = some (get_or cfg.ipv4_resolver_agreement_threshold "0.5");
  ipv6_resolver_agreement_threshold = some (get_or cfg.ipv6_resolver_agreement_threshold "0.5");
  ipv4_resolver_min_responses = some (get_or cfg.ipv4_resolver_min_responses 1);
  ipv6_resolver_min_responses = some (get_or cfg.ipv6_resolver_min_responses 1);
  notifications_enabled = some (get_or cfg.notifications_enabled false);
  notifications_on_success = some (get_or cfg.notifications_on_success false);
  notifications_recipients = some (get_or cfg.notifications_recipients List.[]);
  notifications_cooldown_minutes = some (get_or cfg.notifications_cooldown_minutes 60);
  notifications_subject_prefix = some (get_or cfg.notifications_subject_prefix "[hdns]");
  acme_enabled = some (get_or cfg.acme_enabled false);
  acme_email = some (get_or cfg.acme_email "");
  acme_staging = some (get_or cfg.acme_staging true);
  acme_renew_before_days = some (get_or cfg.acme_renew_before_days 30);
}

unfoldable pub open_config : ConfigDrawer → ConfigDrawer
open_config s = emit get_config (emit open_drawer (record s { loading = true }))

unfoldable pub on_config : Answer Configuration → ConfigDrawer → ConfigDrawer
unfolding patch
on_config (success cfg) s = record s { loading = false; form = patch cfg }
on_config (failure e) s = emit (error e "Failed to load config") (record s { loading = false })

-- The message that `save` sends.
unfoldable pub payload : Values → Configuration
payload v = record {
  log_level = some (get_or v.log_level 0);
  refresh_cron = some (get_or v.refresh_cron "");
  dns_servers = some (get_or v.dns_servers List.[]);
  ipv4_resolvers = some (get_or v.ipv4_resolvers List.[]);
  ipv6_resolvers = some (get_or v.ipv6_resolvers List.[]);
  ipv4_resolver_agreement_threshold = some (get_or v.ipv4_resolver_agreement_threshold "0.5");
  ipv6_resolver_agreement_threshold = some (get_or v.ipv6_resolver_agreement_threshold "0.5");
  ipv4_resolver_min_responses = some (get_or v.ipv4_resolver_min_responses 1);
  ipv6_resolver_min_responses = some (get_or v.ipv6_resolver_min_responses 1);
  notifications_enabled = some (get_or v.notifications_enabled false);
  notifications_on_success = some (get_or v.notifications_on_success false);
  notifications_recipients = some (get_or v.notifications_recipients List.[]);
  notifications_cooldown_minutes = some (get_or v.notifications_cooldown_minutes 0);
  notifications_subject_prefix = some (get_or v.notifications_subject_prefix "");
  acme_enabled = some (get_or v.acme_enabled false);
  acme_email = some (get_or v.acme_email "");
  acme_staging = some (get_or v.acme_staging true);
  acme_renew_before_days = some (get_or v.acme_renew_before_days 30);
}

unfoldable pub save : ConfigDrawer → ConfigDrawer
unfolding payload
save s = emit (update_config (payload s.form)) (record s { saving = true })

unfoldable pub on_saved : Answer (Unit {0}) → ConfigDrawer → ConfigDrawer
on_saved (success _) s =
    emit close_drawer (emit (message "Configuration saved.") (record s { saving = false }))
on_saved (failure e) s = emit (error e "Save failed") (record s { saving = false })
