-- ===== src/Codec/Kinds/RoundTrip.antt =====
-- What is written of a message is read again, whichever message it is.
use hdns.Prelude.{
  ℕ, ◌≡◌, ◌%◌, refl, sym, ap, subst, ◌∙◌, Option, none, some, [], ◌++◌, length, false, ◌||◌, ◌==◌,
  ◌<◌, ◌^◌,
}
use mathlib.Core.List.{append-nil}
use hdns.Codec.Wire.{Wire, WireLaws, WireMoves, Bytes}
use hdns.Codec.Clauses.{
  value, select, write_all, decode_from, decode_all, drop_rest, then_write, tagged,
}
use hdns.Codec.Clauses.Unknown.{unknown-Carries}
use hdns.Codec.Clauses.Rounds.{Steps, Carries, Steps-Carries, Carries-then, Carries-RoundTrip}
use hdns.Codec.Kinds.{Kind, Message, base, encode, decode, fields, cases, IsEncodable}
use hdns.Codec.Addresses.{
  encode_empty, decode_empty, encode_line, decode_line, encode_request, decode_request,
  encode_address, decode_address, encode_address_history, decode_address_history,
}
use hdns.Codec.Zones.{
  encode_zone, decode_zone, encode_zone_list, decode_zone_list, encode_resolution,
  decode_resolution, encode_resolution_result, decode_resolution_result, encode_log_entry,
  decode_log_entry,
}
use hdns.Codec.Certificates.{
  encode_certificate, decode_certificate, encode_certificate_list, decode_certificate_list,
}
use hdns.Codec.Issuance.{
  encode_certificate_artifact, decode_certificate_artifact, encode_certificate_issuance_job,
  decode_certificate_issuance_job, encode_certificate_task_run, decode_certificate_task_run,
  encode_certificate_details, decode_certificate_details,
}
use hdns.Codec.Records.{
  encode_record, decode_record, encode_record_list, decode_record_list, encode_record_delete,
  decode_record_delete,
}
use hdns.Codec.Tasks.{
  encode_task, decode_task, encode_task_list, decode_task_list, encode_task_delete,
  decode_task_delete, encode_task_result, decode_task_result,
}
use hdns.Codec.Settings.{encode_configuration, decode_configuration}
use hdns.Codec.Addresses.RoundTrip.{
  empty-Steps, line-Steps, request-Steps, address-Steps, address_history-Steps,
}
use hdns.Codec.Zones.RoundTrip.{
  zone-Steps, zone_list-Steps, resolution-Steps, resolution_result-Steps, log_entry-Steps,
}
use hdns.Codec.Certificates.RoundTrip.{certificate-Steps, certificate_list-Steps}
use hdns.Codec.Issuance.RoundTrip.{
  certificate_artifact-Steps, certificate_issuance_job-Steps, certificate_task_run-Steps,
  certificate_details-Steps,
}
use hdns.Codec.Records.RoundTrip.{record-Steps, record_list-Steps, record_delete-Steps}
use hdns.Codec.Tasks.RoundTrip.{task-Steps, task_list-Steps, task_delete-Steps, task_result-Steps}
use hdns.Codec.Settings.RoundTrip.{configuration-Steps}

module _ (w : Wire) where
  encode-fields : (k : Kind) (m : Message k) → encode w k m ≡ write_all (fields w k m)
  unfolding encode_empty encode_line encode_request encode_address encode_address_history
      encode_zone encode_zone_list encode_resolution encode_resolution_result encode_log_entry
      encode_certificate encode_certificate_list encode_certificate_artifact
      encode_certificate_issuance_job encode_certificate_task_run encode_certificate_details
      encode_record encode_record_list encode_record_delete encode_task encode_task_list
      encode_task_delete encode_task_result encode_configuration
  encode-fields Kind.empty m = refl
  encode-fields Kind.line m = refl
  encode-fields Kind.request m = refl
  encode-fields Kind.address m = refl
  encode-fields Kind.address_history m = refl
  encode-fields Kind.zone m = refl
  encode-fields Kind.zone_list m = refl
  encode-fields Kind.resolution m = refl
  encode-fields Kind.resolution_result m = refl
  encode-fields Kind.log_entry m = refl
  encode-fields Kind.certificate m = refl
  encode-fields Kind.certificate_list m = refl
  encode-fields Kind.certificate_artifact m = refl
  encode-fields Kind.certificate_issuance_job m = refl
  encode-fields Kind.certificate_task_run m = refl
  encode-fields Kind.certificate_details m = refl
  encode-fields Kind.record' m = refl
  encode-fields Kind.record_list m = refl
  encode-fields Kind.record_delete m = refl
  encode-fields Kind.task m = refl
  encode-fields Kind.task_list m = refl
  encode-fields Kind.task_delete m = refl
  encode-fields Kind.task_result m = refl
  encode-fields Kind.configuration m = refl

  decode-cases : (k : Kind) → decode w k ≡ decode_from w (base k) (cases w k)
  unfolding decode_empty decode_line decode_request decode_address decode_address_history
      decode_zone decode_zone_list decode_resolution decode_resolution_result decode_log_entry
      decode_certificate decode_certificate_list decode_certificate_artifact
      decode_certificate_issuance_job decode_certificate_task_run decode_certificate_details
      decode_record decode_record_list decode_record_delete decode_task decode_task_list
      decode_task_delete decode_task_result decode_configuration
  decode-cases Kind.empty = refl
  decode-cases Kind.line = refl
  decode-cases Kind.request = refl
  decode-cases Kind.address = refl
  decode-cases Kind.address_history = refl
  decode-cases Kind.zone = refl
  decode-cases Kind.zone_list = refl
  decode-cases Kind.resolution = refl
  decode-cases Kind.resolution_result = refl
  decode-cases Kind.log_entry = refl
  decode-cases Kind.certificate = refl
  decode-cases Kind.certificate_list = refl
  decode-cases Kind.certificate_artifact = refl
  decode-cases Kind.certificate_issuance_job = refl
  decode-cases Kind.certificate_task_run = refl
  decode-cases Kind.certificate_details = refl
  decode-cases Kind.record' = refl
  decode-cases Kind.record_list = refl
  decode-cases Kind.record_delete = refl
  decode-cases Kind.task = refl
  decode-cases Kind.task_list = refl
  decode-cases Kind.task_delete = refl
  decode-cases Kind.task_result = refl
  decode-cases Kind.configuration = refl

  -- What is written takes the loop to a message, so `decode` gives it.
  decode-Carries :
      (k : Kind) (m : Message k) (c : Option Bytes)
      → Carries w (cases w k) c (base k) m
      → (b : Bytes) × (c ≡ some b)
        × ((rest : Bytes) → decode w k (length b) (b ++ rest) ≡ value (m, rest))
        × (decode_all w (decode w k) b ≡ value m)
  decode-Carries k m c p =
      let (b, e, back) = Carries-RoundTrip w (cases w k) (base k) m c p in
      let back' : (rest : Bytes) → decode w k (length b) (b ++ rest) ≡ value (m, rest) =
        λ rest. ap (λ d. d (length b) (b ++ rest)) (decode-cases k) ∙ back rest in
      (
        b,
        e,
        back',
        subst (λ x. drop_rest w (decode w k (length b) x) ≡ value m) (append-nil b)
            (ap (drop_rest w) (back' [])),
      )

  module _ (laws : WireLaws w) (moves : WireMoves w) where
    steps :
        (k : Kind) (m : Message k)
        → IsEncodable w k m
        → Steps w (cases w k) (fields w k m) (base k) m
    steps Kind.empty = empty-Steps w laws moves
    steps Kind.line = line-Steps w laws moves
    steps Kind.request = request-Steps w laws moves
    steps Kind.address = address-Steps w laws moves
    steps Kind.address_history = address_history-Steps w laws moves
    steps Kind.zone = zone-Steps w laws moves
    steps Kind.zone_list = zone_list-Steps w laws moves
    steps Kind.resolution = resolution-Steps w laws moves
    steps Kind.resolution_result = resolution_result-Steps w laws moves
    steps Kind.log_entry = log_entry-Steps w laws moves
    steps Kind.certificate = certificate-Steps w laws moves
    steps Kind.certificate_list = certificate_list-Steps w laws moves
    steps Kind.certificate_artifact = certificate_artifact-Steps w laws moves
    steps Kind.certificate_issuance_job = certificate_issuance_job-Steps w laws moves
    steps Kind.certificate_task_run = certificate_task_run-Steps w laws moves
    steps Kind.certificate_details = certificate_details-Steps w laws moves
    steps Kind.record' = record-Steps w laws moves
    steps Kind.record_list = record_list-Steps w laws moves
    steps Kind.record_delete = record_delete-Steps w laws moves
    steps Kind.task = task-Steps w laws moves
    steps Kind.task_list = task_list-Steps w laws moves
    steps Kind.task_delete = task_delete-Steps w laws moves
    steps Kind.task_result = task_result-Steps w laws moves
    steps Kind.configuration = configuration-Steps w laws moves

    encode-Carries :
        (k : Kind) (m : Message k)
        → IsEncodable w k m
        → Carries w (cases w k) (encode w k m) (base k) m
    encode-Carries k m i =
        subst (λ c. Carries w (cases w k) c (base k) m) (sym (encode-fields k m))
          (Steps-Carries w (cases w k) (fields w k m) (base k) m (steps k m i))

    -- `encode` does not throw on a message whose numbers have the range of their types, whose texts
    -- survive UTF-8, whose thresholds are what a double is printed as, and whose parts have a length
    -- below 2 ^ 32, if the reader gives back what the writer was given and takes a byte at least with
    -- each read. `decode` with the length of what was written gives the message back and leaves what
    -- stands behind it; `decode` of these bytes alone gives it too.
    pub decode-encode :
        (k : Kind) (m : Message k)
        → IsEncodable w k m
        → (b : Bytes) × (encode w k m ≡ some b)
          × ((rest : Bytes) → decode w k (length b) (b ++ rest) ≡ value (m, rest))
          × (decode_all w (decode w k) b ≡ value m)
    decode-encode k m i = decode-Carries k m (encode w k m) (encode-Carries k m i)

    -- A field that `decode` has no clause for, behind a message that `encode` wrote, changes nothing:
    -- its tag is a `uint32`, neither 0 nor the end of a group, `skip` steps over what was written for
    -- it, the message meets the conditions of the round trip, and so do reader and writer. The field
    -- and the message are written, and `decode` gives the message.
    pub unknown_field_skipped :
        (k : Kind) (m : Message k) (tag : ℕ) (payload : Bytes)
        → IsEncodable w k m
        → tag < 2 ^ 32
        → select (cases w k) tag ≡ none
        → (tag % 8 == 4 || tag == 0) ≡ false
        → ((rest : Bytes) → w.skip (tag % 8) (payload ++ rest) ≡ some rest)
        → (b : Bytes) × (then_write (encode w k m) (tagged w tag (some payload)) ≡ some b)
          × ((rest : Bytes) → decode w k (length b) (b ++ rest) ≡ value (m, rest))
          × (decode_all w (decode w k) b ≡ value m)
    unknown_field_skipped k m tag payload i h s d p =
        decode-Carries k m (then_write (encode w k m) (tagged w tag (some payload))) (
          Carries-then w (cases w k) (encode w k m) (tagged w tag (some payload)) (base k) m m
            (encode-Carries k m i) (unknown-Carries w laws moves (cases w k) tag payload m h s d p))
