-- ===== src/RecordsTable/Purpose.antt =====
-- What a record is for: `recordHasCert`, `recordDoesDdns`, `purposeLabel`, and the choices of a
-- certificate's look, in records-table.component.ts and record-overview.component.ts.
use hdns.Prelude.{String, Bool, true, false, ◌||◌, get_or, str_eq, if◌then◌else◌}
use hdns.Model.Enums.{RecordPurpose}
use hdns.Model.Messages.{Record}

abbrev pub is_cert : RecordPurpose → Bool
is_cert RecordPurpose.cert = true
is_cert _ = false

abbrev pub is_ddns : RecordPurpose → Bool
is_ddns RecordPurpose.ddns = true
is_ddns _ = false

abbrev pub is_both : RecordPurpose → Bool
is_both RecordPurpose.both = true
is_both _ = false

-- `record.purpose ?? RecordPurpose.RECORD_PURPOSE_UNSPECIFIED`
abbrev pub purpose_of : Record → RecordPurpose
purpose_of r = get_or r.purpose RecordPurpose.unspecified

unfoldable pub record_has_cert : Record → Bool
record_has_cert r = is_cert (purpose_of r) || is_both (purpose_of r)

unfoldable pub record_does_ddns : Record → Bool
record_does_ddns r = is_ddns (purpose_of r) || is_both (purpose_of r)

unfoldable pub purpose_label : RecordPurpose → String
purpose_label RecordPurpose.cert = "Certificate"
purpose_label RecordPurpose.both = "DDNS + Cert"
purpose_label _ = "DDNS"

unfoldable pub cert_status_class : String → String
cert_status_class status =
    if str_eq status "valid"
    then "cert-valid"
    else if str_eq status "failed"
    then "cert-failed"
    else "cert-pending"

unfoldable pub cert_status_icon : String → String
cert_status_icon status =
    if str_eq status "valid"
    then "verified"
    else if str_eq status "failed"
    then "error"
    else "hourglass_empty"
