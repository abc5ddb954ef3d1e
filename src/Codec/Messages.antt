-- ===== src/Codec/Messages.antt =====
-- frontend/src/app/global/model/api.ts: the messages as their codecs see them, with the values that
-- `createBase…` gives. An integer, a time and a value of an enumeration are integers of either sign; a
-- threshold, a number with a fraction, is its decimal text, and zero of either sign is "0".
use hdns.Prelude.{ℤ, String, Bool, Option, List}

pub record EmptyMessage : Type 0 where

pub record LineMessage : Type 0 where
  pub line : String

pub record RequestMessage : Type 0 where
  pub search : String

pub record AddressMessage : Type 0 where
  pub id : ℤ
  pub created_at : ℤ
  pub updated_at : ℤ
  pub ipv4 : String
  pub ipv6 : String
  pub current : Bool

pub record AddressHistoryMessage : Type 0 where
  pub addresses : List AddressMessage

pub record ZoneMessage : Type 0 where
  pub id : ℤ
  pub name : String
  pub record_count : ℤ

pub record ZoneListMessage : Type 0 where
  pub zones : List ZoneMessage

pub record ResolutionMessage : Type 0 where
  pub server : String
  pub addresses : List String
  pub response_time : ℤ
  pub error : String

pub record ResolutionResultMessage : Type 0 where
  pub resolutions : List ResolutionMessage

pub record LogEntryMessage : Type 0 where
  pub timestamp : ℤ
  pub level : ℤ
  pub message : String

pub record CertificateMessage : Type 0 where
  pub id : ℤ
  pub created_at : ℤ
  pub updated_at : ℤ
  pub record_id : ℤ
  pub domains : String
  pub status : String
  pub not_before : ℤ
  pub not_after : ℤ
  pub serial : String
  pub last_error : String

pub record CertificateListMessage : Type 0 where
  pub certificates : List CertificateMessage

pub record CertificateArtifactMessage : Type 0 where
  pub key : String
  pub label : String
  pub available : Bool
  pub download_url : String

pub record CertificateIssuanceJobMessage : Type 0 where
  pub id : ℤ
  pub source : String
  pub status : String
  pub started_at : ℤ
  pub finished_at : ℤ
  pub duration_ms : ℤ
  pub error : String
  pub certificate_id : ℤ

pub record CertificateTaskRunMessage : Type 0 where
  pub id : ℤ
  pub task_id : ℤ
  pub task_name : String
  pub status : String
  pub response_status : String
  pub error : String
  pub started_at : ℤ
  pub finished_at : ℤ
  pub duration_ms : ℤ
  pub certificate_job_id : ℤ

pub record CertificateDetailsMessage : Type 0 where
  pub record_id : ℤ
  pub record_name : String
  pub record_domain : String
  pub certificate : Option CertificateMessage
  pub artifacts : List CertificateArtifactMessage
  pub issuance_jobs : List CertificateIssuanceJobMessage
  pub task_runs : List CertificateTaskRunMessage
  pub fetched_at : ℤ

pub record RecordMessage : Type 0 where
  pub id : ℤ
  pub created_at : ℤ
  pub updated_at : ℤ
  pub token : String
  pub zone_id : ℤ
  pub domain : String
  pub name : String
  pub ttl : ℤ
  pub address_id : ℤ
  pub address : Option AddressMessage
  pub purpose : ℤ
  pub include_wildcard : Bool
  pub certificate : Option CertificateMessage
  pub acme_email : String

pub record RecordListMessage : Type 0 where
  pub records : List RecordMessage

pub record RecordDeleteMessage : Type 0 where
  pub record' : Option RecordMessage
  pub delete_from_hetzner : Bool

pub record TaskMessage : Type 0 where
  pub id : ℤ
  pub created_at : ℤ
  pub updated_at : ℤ
  pub record_id : ℤ
  pub name : String
  pub trigger_on : ℤ
  pub method : String
  pub url : String
  pub headers : String
  pub body : String
  pub enabled : Bool
  pub last_run : ℤ
  pub last_status : String
  pub last_error : String
  pub include_certificate : Bool
  pub certificate_format : String

pub record TaskListMessage : Type 0 where
  pub tasks : List TaskMessage

pub record TaskDeleteMessage : Type 0 where
  pub id : ℤ

pub record TaskResultMessage : Type 0 where
  pub status : String
  pub error : String

pub record ConfigurationMessage : Type 0 where
  pub log_level : ℤ
  pub refresh_cron : String
  pub dns_servers : List String
  pub ipv4_resolvers : List String
  pub ipv6_resolvers : List String
  pub ipv4_resolver_agreement_threshold : String
  pub ipv6_resolver_agreement_threshold : String
  pub ipv4_resolver_min_responses : ℤ
  pub ipv6_resolver_min_responses : ℤ
  pub notifications_enabled : Bool
  pub notifications_on_success : Bool
  pub notifications_recipients : List String
  pub notifications_cooldown_minutes : ℤ
  pub notifications_subject_prefix : String
  pub acme_enabled : Bool
  pub acme_email : String
  pub acme_staging : Bool
  pub acme_renew_before_days : ℤ
