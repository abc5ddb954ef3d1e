-- ===== src/Codec/Base.antt =====
-- frontend/src/app/global/model/api.ts: the functions `createBase…`.
use hdns.Prelude.{pos, false, none, []}
use hdns.Codec.Messages.{
  EmptyMessage, LineMessage, RequestMessage, AddressMessage, AddressHistoryMessage, ZoneMessage,
  ZoneListMessage, ResolutionMessage, ResolutionResultMessage, LogEntryMessage, CertificateMessage,
  CertificateListMessage, CertificateArtifactMessage, CertificateIssuanceJobMessage,
  CertificateTaskRunMessage, CertificateDetailsMessage, RecordMessage, RecordListMessage,
  RecordDeleteMessage, TaskMessage, TaskListMessage, TaskDeleteMessage, TaskResultMessage,
  ConfigurationMessage,
}

abbrev pub create_base_empty : EmptyMessage
create_base_empty = record {}

abbrev pub create_base_line : LineMessage
create_base_line = record { line = "" }

abbrev pub create_base_request : RequestMessage
create_base_request = record { search = "" }

abbrev pub create_base_address : AddressMessage
create_base_address = record {
  id = pos 0;
  created_at = pos 0;
  updated_at = pos 0;
  ipv4 = "";
  ipv6 = "";
  current = false;
}

abbrev pub create_base_address_history : AddressHistoryMessage
create_base_address_history = record { addresses = [] }

abbrev pub create_base_zone : ZoneMessage
create_base_zone = record { id = pos 0; name = ""; record_count = pos 0 }

abbrev pub create_base_zone_list : ZoneListMessage
create_base_zone_list = record { zones = [] }

abbrev pub create_base_resolution : ResolutionMessage
create_base_resolution = record { server = ""; addresses = []; response_time = pos 0; error = "" }

abbrev pub create_base_resolution_result : ResolutionResultMessage
create_base_resolution_result = record { resolutions = [] }

abbrev pub create_base_log_entry : LogEntryMessage
create_base_log_entry = record { timestamp = pos 0; level = pos 0; message = "" }

abbrev pub create_base_certificate : CertificateMessage
create_base_certificate = record {
  id = pos 0;
  created_at = pos 0;
  updated_at = pos 0;
  record_id = pos 0;
  domains = "";
  status = "";
  not_before = pos 0;
  not_after = pos 0;
  serial = "";
  last_error = "";
}

abbrev pub create_base_certificate_list : CertificateListMessage
create_base_certificate_list = record { certificates = [] }

abbrev pub create_base_certificate_artifact : CertificateArtifactMessage
create_base_certificate_artifact = record {
  key = "";
  label = "";
  available = false;
  download_url = "";
}

abbrev pub create_base_certificate_issuance_job : CertificateIssuanceJobMessage
create_base_certificate_issuance_job = record {
  id = pos 0;
  source = "";
  status = "";
  started_at = pos 0;
  finished_at = pos 0;
  duration_ms = pos 0;
  error = "";
  certificate_id = pos 0;
}

abbrev pub create_base_certificate_task_run : CertificateTaskRunMessage
create_base_certificate_task_run = record {
  id = pos 0;
  task_id = pos 0;
  task_name = "";
  status = "";
  response_status = "";
  error = "";
  started_at = pos 0;
  finished_at = pos 0;
  duration_ms = pos 0;
  certificate_job_id = pos 0;
}

abbrev pub create_base_certificate_details : CertificateDetailsMessage
create_base_certificate_details = record {
  record_id = pos 0;
  record_name = "";
  record_domain = "";
  certificate = none;
  artifacts = [];
  issuance_jobs = [];
  task_runs = [];
  fetched_at = pos 0;
}

abbrev pub create_base_record : RecordMessage
create_base_record = record {
  id = pos 0;
  created_at = pos 0;
  updated_at = pos 0;
  token = "";
  zone_id = pos 0;
  domain = "";
  name = "";
  ttl = pos 0;
  address_id = pos 0;
  address = none;
  purpose = pos 0;
  include_wildcard = false;
  certificate = none;
  acme_email = "";
}

abbrev pub create_base_record_list : RecordListMessage
create_base_record_list = record { records = [] }

abbrev pub create_base_record_delete : RecordDeleteMessage
create_base_record_delete = record { record' = none; delete_from_hetzner = false }

abbrev pub create_base_task : TaskMessage
create_base_task = record {
  id = pos 0;
  created_at = pos 0;
  updated_at = pos 0;
  record_id = pos 0;
  name = "";
  trigger_on = pos 0;
  method = "";
  url = "";
  headers = "";
  body = "";
  enabled = false;
  last_run = pos 0;
  last_status = "";
  last_error = "";
  include_certificate = false;
  certificate_format = "";
}

abbrev pub create_base_task_list : TaskListMessage
create_base_task_list = record { tasks = [] }

abbrev pub create_base_task_delete : TaskDeleteMessage
create_base_task_delete = record { id = pos 0 }

abbrev pub create_base_task_result : TaskResultMessage
create_base_task_result = record { status = ""; error = "" }

abbrev pub create_base_configuration : ConfigurationMessage
create_base_configuration = record {
  log_level = pos 0;
  refresh_cron = "";
  dns_servers = [];
  ipv4_resolvers = [];
  ipv6_resolvers = [];
  ipv4_resolver_agreement_threshold = "0";
  ipv6_resolver_agreement_threshold = "0";
  ipv4_resolver_min_responses = pos 0;
  ipv6_resolver_min_responses = pos 0;
  notifications_enabled = false;
  notifications_on_success = false;
  notifications_recipients = [];
  notifications_cooldown_minutes = pos 0;
  notifications_subject_prefix = "";
  acme_enabled = false;
  acme_email = "";
  acme_staging = false;
  acme_renew_before_days = pos 0;
}
