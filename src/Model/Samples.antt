-- ===== src/Model/Samples.antt =====
-- A record and a task for the tests of the other modules.
use hdns.Prelude.{none, some, true, false}
use hdns.Model.Enums.{RecordPurpose, TaskTrigger}
use hdns.Model.Messages.{Record, Task}

abbrev pub home_record : Record
home_record = record {
  id = 7;
  created_at = 1;
  updated_at = 2;
  token = "secret";
  zone_id = 3;
  domain = some "example.org";
  name = "home";
  ttl = 60;
  address_id = 0;
  address = none;
  purpose = some RecordPurpose.ddns;
  include_wildcard = some false;
  certificate = none;
  acme_email = none;
}

abbrev pub hook_task : Task
hook_task = record {
  id = 4;
  created_at = 1;
  updated_at = 2;
  record_id = 7;
  name = "hook";
  trigger_on = some TaskTrigger.ip;
  method = "PUT";
  url = "https://example.org/hook";
  headers = "{}";
  body = some "{}";
  enabled = true;
  last_run = 0;
  last_status = "";
  last_error = "";
  include_certificate = some false;
  certificate_format = "pem";
}
