-- ===== src/Codec/Settings/Json/Names.antt =====
-- `Configuration`: `fromJSON` reads an object by these names alone.
use hdns.Prelude.{String, ◌≡◌, refl, List, [], ◌∷◌, All}
use hdns.Codec.Json.{object, Props, Host}
use hdns.Codec.Json.Agree.{
  Agree, boolean_in-Agree, decimal_in-Agree, messages_in-Agree, number_in-Agree, text_in-Agree,
}
use hdns.Codec.Settings.Json.{from_json_configuration}

abbrev pub configuration_names : List (List String)
configuration_names =
    ("logLevel" ∷ "log_level" ∷ [])
    ∷ ("refreshCron" ∷ "refresh_cron" ∷ [])
    ∷ ("dnsServers" ∷ "dns_servers" ∷ [])
    ∷ ("ipv4Resolvers" ∷ "ipv4_resolvers" ∷ [])
    ∷ ("ipv6Resolvers" ∷ "ipv6_resolvers" ∷ [])
    ∷ ("ipv4ResolverAgreementThreshold" ∷ "ipv4_resolver_agreement_threshold" ∷ [])
    ∷ ("ipv6ResolverAgreementThreshold" ∷ "ipv6_resolver_agreement_threshold" ∷ [])
    ∷ ("ipv4ResolverMinResponses" ∷ "ipv4_resolver_min_responses" ∷ [])
    ∷ ("ipv6ResolverMinResponses" ∷ "ipv6_resolver_min_responses" ∷ [])
    ∷ ("notificationsEnabled" ∷ "notifications_enabled" ∷ [])
    ∷ ("notificationsOnSuccess" ∷ "notifications_on_success" ∷ [])
    ∷ ("notificationsRecipients" ∷ "notifications_recipients" ∷ [])
    ∷ ("notificationsCooldownMinutes" ∷ "notifications_cooldown_minutes" ∷ [])
    ∷ ("notificationsSubjectPrefix" ∷ "notifications_subject_prefix" ∷ [])
    ∷ ("acmeEnabled" ∷ "acme_enabled" ∷ [])
    ∷ ("acmeEmail" ∷ "acme_email" ∷ [])
    ∷ ("acmeStaging" ∷ "acme_staging" ∷ [])
    ∷ ("acmeRenewBeforeDays" ∷ "acme_renew_before_days" ∷ [])
    ∷ []

module _ (host : Host) (ps qs : Props) where
  pub from_json_configuration-Agree :
      All (Agree ps qs) configuration_names
      → from_json_configuration host (object ps) ≡ from_json_configuration host (object qs)
  unfolding from_json_configuration
  from_json_configuration-Agree h =
      rw
        (
          number_in-Agree host ps qs ("logLevel" ∷ "log_level" ∷ []) h.0,
          text_in-Agree host ps qs ("refreshCron" ∷ "refresh_cron" ∷ []) h.1.0,
          messages_in-Agree host ps qs ("dnsServers" ∷ "dns_servers" ∷ []) host.to_text h.1.1.0,
          messages_in-Agree host ps qs ("ipv4Resolvers" ∷ "ipv4_resolvers" ∷ []) host.to_text
              h.1.1.1.0,
          messages_in-Agree host ps qs ("ipv6Resolvers" ∷ "ipv6_resolvers" ∷ []) host.to_text
              h.1.1.1.1.0,
          decimal_in-Agree host ps qs
              ("ipv4ResolverAgreementThreshold" ∷ "ipv4_resolver_agreement_threshold" ∷ [])
              h.1.1.1.1.1.0,
          decimal_in-Agree host ps qs
              ("ipv6ResolverAgreementThreshold" ∷ "ipv6_resolver_agreement_threshold" ∷ [])
              h.1.1.1.1.1.1.0,
          number_in-Agree host ps qs
              ("ipv4ResolverMinResponses" ∷ "ipv4_resolver_min_responses" ∷ []) h.1.1.1.1.1.1.1.0,
          number_in-Agree host ps qs
              ("ipv6ResolverMinResponses" ∷ "ipv6_resolver_min_responses" ∷ []) h.1.1.1.1.1.1.1.1.0,
          boolean_in-Agree host ps qs ("notificationsEnabled" ∷ "notifications_enabled" ∷ [])
              h.1.1.1.1.1.1.1.1.1.0,
          boolean_in-Agree host ps qs ("notificationsOnSuccess" ∷ "notifications_on_success" ∷ [])
              h.1.1.1.1.1.1.1.1.1.1.0,
          messages_in-Agree host ps qs ("notificationsRecipients" ∷ "notifications_recipients" ∷ [])
              host.to_text h.1.1.1.1.1.1.1.1.1.1.1.0,
          number_in-Agree host ps qs
              ("notificationsCooldownMinutes" ∷ "notifications_cooldown_minutes" ∷ [])
              h.1.1.1.1.1.1.1.1.1.1.1.1.0,
          text_in-Agree host ps qs
              ("notificationsSubjectPrefix" ∷ "notifications_subject_prefix" ∷ [])
              h.1.1.1.1.1.1.1.1.1.1.1.1.1.0,
          boolean_in-Agree host ps qs ("acmeEnabled" ∷ "acme_enabled" ∷ [])
              h.1.1.1.1.1.1.1.1.1.1.1.1.1.1.0,
          text_in-Agree host ps qs ("acmeEmail" ∷ "acme_email" ∷ [])
              h.1.1.1.1.1.1.1.1.1.1.1.1.1.1.1.0,
          boolean_in-Agree host ps qs ("acmeStaging" ∷ "acme_staging" ∷ [])
              h.1.1.1.1.1.1.1.1.1.1.1.1.1.1.1.1.0,
          number_in-Agree host ps qs ("acmeRenewBeforeDays" ∷ "acme_renew_before_days" ∷ [])
              h.1.1.1.1.1.1.1.1.1.1.1.1.1.1.1.1.1.0,
        )
        refl
