-- ===== src/Model/Messages.antt =====
-- frontend/src/app/global/model/api.ts: the messages that the service and the client exchange.
-- Identifiers, times and counts are the natural numbers. A field is an `Option` where it is `… |
-- undefined` in the source, and where the client guards it by `??`: the answers are JSON, which
-- leaves out a field that holds its default, and they are used as they arrive.
use hdns.Prelude.{ℕ, String, Bool, Option, List}
use hdns.Model.Enums.{RecordPurpose, TaskTrigger}

pub record Line : Type 0 where
  pub line : Option String

pub record Request : Type 0 where
  pub search : Option String

pub record Address : Type 0 where
  pub id : ℕ
  pub created_at : ℕ
  pub updated_at : ℕ
  pub ipv4 : String
  pub ipv6 : String
  pub current : Bool

pub record AddressHistory : Type 0 where
  pub addresses : Option (List Address)

pub record Certificate : Type 0 where
  pub id : ℕ
  pub created_at : ℕ
  pub updated_at : ℕ
  pub record_id : ℕ
  pub domains : String
  pub status : String
  pub not_before : ℕ
  pub not_after : ℕ
  pub serial : String
  pub last_error : String

-- A DNS record.
pub record Record : Type 0 where
  pub id : ℕ
  pub created_at : ℕ
  pub updated_at : ℕ
  pub token : String
  pub zone_id : ℕ
  pub domain : Option String
  pub name : String
  pub ttl : ℕ
  pub address_id : ℕ
  pub address : Option Address
  pub purpose : Option RecordPurpose
  pub include_wildcard : Option Bool
  pub certificate : Option Certificate
  pub acme_email : Option String

pub record RecordList : Type 0 where
  pub records : Option (List Record)

pub record RecordDelete : Type 0 where
  pub record' : Option Record
  pub delete_from_hetzner : Bool

pub record CertificateList : Type 0 where
  pub certificates : Option (List Certificate)

pub record CertificateArtifact : Type 0 where
  pub key : String
  pub label : String
  pub available : Bool
  pub download_url : String

pub record CertificateIssuanceJob : Type 0 where
  pub id : ℕ
  pub source : String
  pub status : String
  pub started_at : ℕ
  pub finished_at : ℕ
  pub duration_ms : ℕ
  pub error : String
  pub certificate_id : ℕ

pub record CertificateTaskRun : Type 0 where
  pub id : ℕ
  pub task_id : ℕ
  pub task_name : String
  pub status : String
  pub response_status : String
  pub error : String
  pub started_at : ℕ
  pub finished_at : ℕ
  pub duration_ms : ℕ
  pub certificate_job_id : ℕ

pub record CertificateDetails : Type 0 where
  pub record_id : ℕ
  pub record_name : String
  pub record_domain : String
  pub certificate : Option Certificate
  pub artifacts : List CertificateArtifact
  pub issuance_jobs : List CertificateIssuanceJob
  pub task_runs : List CertificateTaskRun
  pub fetched_at : ℕ

pub record Task : Type 0 where
  pub id : ℕ
  pub created_at : ℕ
  pub updated_at : ℕ
  pub record_id : ℕ
  pub name : String
  pub trigger_on : Option TaskTrigger
  pub method : String
  pub url : String
  pub headers : String
  pub body : Option String
  pub enabled : Bool
  pub last_run : ℕ
  pub last_status : String
  pub last_error : String
  pub include_certificate : Option Bool
  pub certificate_format : String

pub record TaskList : Type 0 where
  pub tasks : Option (List Task)

pub record TaskDelete : Type 0 where
  pub id : ℕ

pub record TaskResult : Type 0 where
  pub status : String
  pub error : String

pub record Zone : Type 0 where
  pub id : ℕ
  pub name : Option String
  pub record_count : ℕ

pub record ZoneList : Type 0 where
  pub zones : Option (List Zone)

pub record Resolution : Type 0 where
  pub server : String
  pub addresses : Option (List String)
  pub response_time : ℕ
  pub error : String

pub record ResolutionResult : Type 0 where
  pub resolutions : Option (List Resolution)

-- An agreement threshold is a floating-point number that the client only passes on: it stands here
-- by its decimal text.
pub record Configuration : Type 0 where
  pub log_level : Option ℕ
  pub refresh_cron : Option String
  pub dns_servers : Option (List String)
  pub ipv4_resolvers : Option (List String)
  pub ipv6_resolvers : Option (List String)
  pub ipv4_resolver_agreement_threshold : Option String
  pub ipv6_resolver_agreement_threshold : Option String
  pub ipv4_resolver_min_responses : Option ℕ
  pub ipv6_resolver_min_responses : Option ℕ
  pub notifications_enabled : Option Bool
  pub notifications_on_success : Option Bool
  pub notifications_recipients : Option (List String)
  pub notifications_cooldown_minutes : Option ℕ
  pub notifications_subject_prefix : Option String
  pub acme_enabled : Option Bool
  pub acme_email : Option String
  pub acme_staging : Option Bool
  pub acme_renew_before_days : Option ℕ
