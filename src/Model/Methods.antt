-- ===== src/Model/Methods.antt =====
-- frontend/src/app/global/model/api.ts: `HDNSDefinition`, the methods of the service.
use hdns.Prelude.{String, Bool, true, false, List, [], ◌∷◌}

-- The message types that the methods name.
pub data MessageType : Type 0 where
  record_type zone_list request record_list record_delete empty address resolution_result resolution
        address_history certificate_list certificate certificate_details task_list task task_delete
        task_result configuration line :
      MessageType

-- The keys of `HDNSDefinition.methods`.
pub data MethodKey : Type 0 where
  get_zones get_records upsert_record delete_record refresh_record fetch_hetzner_record
        resolve_record stream_resolve_record stream_address get_address get_address_history
        refresh_address get_certificates issue_certificate get_certificate_details get_tasks
        upsert_task delete_task run_task get_config update_config stream_log :
      MethodKey

pub record Method : Type 0 where
  pub name : String
  pub request_type : MessageType
  pub request_stream : Bool
  pub response_type : MessageType
  pub response_stream : Bool

abbrev pub service_name : String
service_name = "HDNS"

-- `HDNSDefinition.methods[key]`
unfoldable pub methods : MethodKey → Method
methods get_zones = record {
  name = "GetZones";
  request_type = MessageType.record_type;
  request_stream = false;
  response_type = MessageType.zone_list;
  response_stream = false;
}
methods get_records = record {
  name = "GetRecords";
  request_type = MessageType.request;
  request_stream = false;
  response_type = MessageType.record_list;
  response_stream = false;
}
methods upsert_record = record {
  name = "UpsertRecord";
  request_type = MessageType.record_type;
  request_stream = false;
  response_type = MessageType.record_type;
  response_stream = false;
}
methods delete_record = record {
  name = "DeleteRecord";
  request_type = MessageType.record_delete;
  request_stream = false;
  response_type = MessageType.empty;
  response_stream = false;
}
methods refresh_record = record {
  name = "RefreshRecord";
  request_type = MessageType.record_type;
  request_stream = false;
  response_type = MessageType.record_type;
  response_stream = false;
}
methods fetch_hetzner_record = record {
  name = "FetchHetznerRecord";
  request_type = MessageType.record_type;
  request_stream = false;
  response_type = MessageType.address;
  response_stream = false;
}
methods resolve_record = record {
  name = "ResolveRecord";
  request_type = MessageType.record_type;
  request_stream = false;
  response_type = MessageType.resolution_result;
  response_stream = false;
}
methods stream_resolve_record = record {
  name = "StreamResolveRecord";
  request_type = MessageType.record_type;
  request_stream = false;
  response_type = MessageType.resolution;
  response_stream = true;
}
methods stream_address = record {
  name = "StreamAddress";
  request_type = MessageType.empty;
  request_stream = false;
  response_type = MessageType.address;
  response_stream = true;
}
methods get_address = record {
  name = "GetAddress";
  request_type = MessageType.empty;
  request_stream = false;
  response_type = MessageType.address;
  response_stream = false;
}
methods get_address_history = record {
  name = "GetAddressHistory";
  request_type = MessageType.empty;
  request_stream = false;
  response_type = MessageType.address_history;
  response_stream = false;
}
methods refresh_address = record {
  name = "RefreshAddress";
  request_type = MessageType.empty;
  request_stream = false;
  response_type = MessageType.address;
  response_stream = false;
}
methods get_certificates = record {
  name = "GetCertificates";
  request_type = MessageType.empty;
  request_stream = false;
  response_type = MessageType.certificate_list;
  response_stream = false;
}
methods issue_certificate = record {
  name = "IssueCertificate";
  request_type = MessageType.record_type;
  request_stream = false;
  response_type = MessageType.certificate;
  response_stream = false;
}
methods get_certificate_details = record {
  name = "GetCertificateDetails";
  request_type = MessageType.record_type;
  request_stream = false;
  response_type = MessageType.certificate_details;
  response_stream = false;
}
methods get_tasks = record {
  name = "GetTasks";
  request_type = MessageType.empty;
  request_stream = false;
  response_type = MessageType.task_list;
  response_stream = false;
}
methods upsert_task = record {
  name = "UpsertTask";
  request_type = MessageType.task;
  request_stream = false;
  response_type = MessageType.task;
  response_stream = false;
}
methods delete_task = record {
  name = "DeleteTask";
  request_type = MessageType.task_delete;
  request_stream = false;
  response_type = MessageType.empty;
  response_stream = false;
}
methods run_task = record {
  name = "RunTask";
  request_type = MessageType.task;
  request_stream = false;
  response_type = MessageType.task_result;
  response_stream = false;
}
methods get_config = record {
  name = "GetConfig";
  request_type = MessageType.empty;
  request_stream = false;
  response_type = MessageType.configuration;
  response_stream = false;
}
methods update_config = record {
  name = "UpdateConfig";
  request_type = MessageType.configuration;
  request_stream = false;
  response_type = MessageType.configuration;
  response_stream = false;
}
methods stream_log = record {
  name = "StreamLog";
  request_type = MessageType.empty;
  request_stream = false;
  response_type = MessageType.line;
  response_stream = true;
}

abbrev pub all_methods : List MethodKey
all_methods =
    get_zones ∷ get_records ∷ upsert_record ∷ delete_record ∷ refresh_record ∷ fetch_hetzner_record
    ∷ resolve_record ∷ stream_resolve_record ∷ stream_address ∷ get_address ∷ get_address_history
    ∷ refresh_address ∷ get_certificates ∷ issue_certificate ∷ get_certificate_details ∷ get_tasks
    ∷ upsert_task ∷ delete_task ∷ run_task ∷ get_config ∷ update_config ∷ stream_log ∷ []
