-- ===== src/Api/Tests.antt =====
-- The theorems on the calls at concrete inputs.
use hdns.Prelude.{
  Option, min, ◌<◌, ◌+◌, ◌*◌, ◌-◌, ◌≡◌, ◌≤◌, refl, true, false, some, arith, trim, is_space,
  is_blank,
}
use hdns.Model.Samples.{home_record}
use hdns.Model.Methods.{MethodKey, MessageType, methods}
use hdns.Api.{Call, body, key, default_options, retry_delay}
use hdns.Api.Contract.{body-IsDeclared, message_type, path-injective}
use hdns.Api.Backoff.{waits_grow}
use hdns.Api.Errors.{Failure, detailed, shown, shown_failure}
use hdns.Notify.Extract.{one_line, detail_of, split_bar}

body-IsDeclared_example :
    (message_type (body (Call.delete_record home_record true)) ≡ MessageType.record_delete)
    × ((methods MethodKey.delete_record).request_stream ≡ false)
    × ((methods MethodKey.delete_record).response_stream ≡ false)
unfolding key methods
body-IsDeclared_example = body-IsDeclared (Call.delete_record home_record true)

path-injective_example : MethodKey.get_config ≡ MethodKey.get_config
path-injective_example = path-injective MethodKey.get_config MethodKey.get_config refl

waits_grow_example :
    (retry_delay default_options 5 299 ≤ retry_delay default_options 6 0 + 299)
    × (retry_delay default_options 6 0 < 10300)
    × (retry_delay default_options 6 0
        ≡ min 10000 (2 * (retry_delay default_options 5 299 - 299)) + 0)
waits_grow_example =
    waits_grow default_options 5 6 299 0 (omega arith) (omega arith) (omega arith) (omega arith)

abbrev refused : Option Failure
refused = some (detailed "api" " zone not found " "dns.go:10 | token | expired")

shown_failure_example :
    shown
      (record { status = 502; error = some "api | zone not found [dns.go:10 | token | expired]" })
    ≡ "zone not found: token | expired"
unfolding trim is_space is_blank detail_of split_bar one_line
shown_failure_example = shown_failure 502 refused (omega arith, refl, omega arith, (λ e. cc), refl)
