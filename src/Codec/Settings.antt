-- ===== src/Codec/Settings.antt =====
-- frontend/src/app/global/model/api.ts: `encode` and `decode` of `Configuration`.
pub mod RoundTrip
pub mod Ends
pub mod Json
use hdns.Prelude.{
  ℕ, ℤ, pos, String, Bool, true, false, Option, none, some, List, [], ◌∷◌, ◌++◌, ◌≡◌, ◌<◌, ◌^◌,
  refl, arith, All, length,
}
use hdns.Codec.Wire.{Wire, Bytes}
use hdns.Codec.Messages.{ConfigurationMessage}
use hdns.Codec.Base.{create_base_configuration}
use hdns.Codec.Clauses.{
  Outcome, Clause, write_all, decode_from, bool_field, double_field, int32_field, string_field,
  strings_field, bool_case, double_case, int32_case, string_case,
}

module _ (w : Wire) where
  abbrev pub configuration_fields : ConfigurationMessage → List (Option Bytes)
  configuration_fields m =
      int32_field w 8 (m.log_level)
      ∷ string_field w 18 (m.refresh_cron)
      ∷ strings_field w 26 (m.dns_servers)
      ∷ strings_field w 34 (m.ipv4_resolvers)
      ∷ strings_field w 42 (m.ipv6_resolvers)
      ∷ double_field w 121 (m.ipv4_resolver_agreement_threshold)
      ∷ double_field w 129 (m.ipv6_resolver_agreement_threshold)
      ∷ int32_field w 136 (m.ipv4_resolver_min_responses)
      ∷ int32_field w 144 (m.ipv6_resolver_min_responses)
      ∷ bool_field w 48 (m.notifications_enabled)
      ∷ bool_field w 56 (m.notifications_on_success)
      ∷ strings_field w 66 (m.notifications_recipients)
      ∷ int32_field w 72 (m.notifications_cooldown_minutes)
      ∷ string_field w 82 (m.notifications_subject_prefix)
      ∷ bool_field w 88 (m.acme_enabled)
      ∷ string_field w 98 (m.acme_email)
      ∷ bool_field w 104 (m.acme_staging)
      ∷ int32_field w 112 (m.acme_renew_before_days)
      ∷ []

  unfoldable pub encode_configuration : ConfigurationMessage → Option Bytes
  encode_configuration m = write_all (configuration_fields m)

  abbrev pub configuration_cases : List (Clause ConfigurationMessage)
  configuration_cases =
      int32_case w 8 (λ v m. record m { log_level = v })
      ∷ string_case w 18 (λ v m. record m { refresh_cron = v })
      ∷ string_case w 26 (λ v m. record m { dns_servers = m.dns_servers ++ v ∷ [] })
      ∷ string_case w 34 (λ v m. record m { ipv4_resolvers = m.ipv4_resolvers ++ v ∷ [] })
      ∷ string_case w 42 (λ v m. record m { ipv6_resolvers = m.ipv6_resolvers ++ v ∷ [] })
      ∷ double_case w 121 (λ v m. record m { ipv4_resolver_agreement_threshold = v })
      ∷ double_case w 129 (λ v m. record m { ipv6_resolver_agreement_threshold = v })
      ∷ int32_case w 136 (λ v m. record m { ipv4_resolver_min_responses = v })
      ∷ int32_case w 144 (λ v m. record m { ipv6_resolver_min_responses = v })
      ∷ bool_case w 48 (λ v m. record m { notifications_enabled = v })
      ∷ bool_case w 56 (λ v m. record m { notifications_on_success = v })
      ∷ string_case w 66
          (λ v m. record m { notifications_recipients = m.notifications_recipients ++ v ∷ [] })
      ∷ int32_case w 72 (λ v m. record m { notifications_cooldown_minutes = v })
      ∷ string_case w 82 (λ v m. record m { notifications_subject_prefix = v })
      ∷ bool_case w 88 (λ v m. record m { acme_enabled = v })
      ∷ string_case w 98 (λ v m. record m { acme_email = v })
      ∷ bool_case w 104 (λ v m. record m { acme_staging = v })
      ∷ int32_case w 112 (λ v m. record m { acme_renew_before_days = v })
      ∷ []

  unfoldable pub decode_configuration : ℕ → Bytes → Outcome (ConfigurationMessage × Bytes)
  decode_configuration = decode_from w create_base_configuration configuration_cases
