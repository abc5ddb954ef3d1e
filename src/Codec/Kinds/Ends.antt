-- ===== src/Codec/Kinds/Ends.antt =====
-- Reading ends on all bytes, whichever message is read.
use hdns.Prelude.{ℕ, ◌≢◌, subst, length}
use hdns.Codec.Wire.{Wire, WireMoves, Bytes}
use hdns.Codec.Clauses.{stuck}
use hdns.Codec.Clauses.Ends.{Ends}
use hdns.Codec.Kinds.{Kind, decode}
use hdns.Codec.Addresses.Ends.{
  empty-Ends, line-Ends, request-Ends, address-Ends, address_history-Ends,
}
use hdns.Codec.Zones.Ends.{
  zone-Ends, zone_list-Ends, resolution-Ends, resolution_result-Ends, log_entry-Ends,
}
use hdns.Codec.Certificates.Ends.{certificate-Ends, certificate_list-Ends}
use hdns.Codec.Issuance.Ends.{
  certificate_artifact-Ends, certificate_issuance_job-Ends, certificate_task_run-Ends,
  certificate_details-Ends,
}
use hdns.Codec.Records.Ends.{record-Ends, record_list-Ends, record_delete-Ends}
use hdns.Codec.Tasks.Ends.{task-Ends, task_list-Ends, task_delete-Ends, task_result-Ends}
use hdns.Codec.Settings.Ends.{configuration-Ends}

module _ (w : Wire) (moves : WireMoves w) where
  decode-Ends : (k : Kind) (n : ℕ) (b : Bytes) → Ends (length b) (decode w k n b)
  decode-Ends Kind.empty = empty-Ends w moves
  decode-Ends Kind.line = line-Ends w moves
  decode-Ends Kind.request = request-Ends w moves
  decode-Ends Kind.address = address-Ends w moves
  decode-Ends Kind.address_history = address_history-Ends w moves
  decode-Ends Kind.zone = zone-Ends w moves
  decode-Ends Kind.zone_list = zone_list-Ends w moves
  decode-Ends Kind.resolution = resolution-Ends w moves
  decode-Ends Kind.resolution_result = resolution_result-Ends w moves
  decode-Ends Kind.log_entry = log_entry-Ends w moves
  decode-Ends Kind.certificate = certificate-Ends w moves
  decode-Ends Kind.certificate_list = certificate_list-Ends w moves
  decode-Ends Kind.certificate_artifact = certificate_artifact-Ends w moves
  decode-Ends Kind.certificate_issuance_job = certificate_issuance_job-Ends w moves
  decode-Ends Kind.certificate_task_run = certificate_task_run-Ends w moves
  decode-Ends Kind.certificate_details = certificate_details-Ends w moves
  decode-Ends Kind.record' = record-Ends w moves
  decode-Ends Kind.record_list = record_list-Ends w moves
  decode-Ends Kind.record_delete = record_delete-Ends w moves
  decode-Ends Kind.task = task-Ends w moves
  decode-Ends Kind.task_list = task_list-Ends w moves
  decode-Ends Kind.task_delete = task_delete-Ends w moves
  decode-Ends Kind.task_result = task_result-Ends w moves
  decode-Ends Kind.configuration = configuration-Ends w moves

  -- `decode` returns or throws on all bytes and with any length, for each of the messages, if the reader
  -- takes a byte at least with each read: the rounds of its loop do not run out.
  pub decode_returns : (k : Kind) (n : ℕ) (b : Bytes) → decode w k n b ≢ stuck
  decode_returns k n b e = subst (Ends (length b)) e (decode-Ends k n b)
