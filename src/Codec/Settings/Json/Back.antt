-- ===== src/Codec/Settings/Json/Back.antt =====
-- `Configuration`: what `toJSON` makes is read by `fromJSON`.
use hdns.Prelude.{◌≡◌, refl, some, [], ◌∷◌}
use hdns.Codec.Messages.{ConfigurationMessage}
use hdns.Codec.Json.{Host, HostLaws}
use hdns.Codec.Json.Back.{
  boolean_in-props, decimal_in-props, number_in-props, text_in-props, texts_in-props,
}
use hdns.Codec.Settings.Json.{configuration_props, to_json_configuration, from_json_configuration}

-- The messages whose enumerations have a number that the source names.
abbrev pub IsKnownConfiguration : ConfigurationMessage → Type 0
IsKnownConfiguration m = Unit

module _ (host : Host) (laws : HostLaws host) where
  pub from_json-to_json_configuration :
      (m : ConfigurationMessage)
      → IsKnownConfiguration m
      → from_json_configuration host (to_json_configuration m) ≡ some m
  unfolding from_json_configuration to_json_configuration
  from_json-to_json_configuration m i =
      rw
        (
          number_in-props host laws (configuration_props m) ("logLevel" ∷ "log_level" ∷ [])
              (m.log_level) refl,
          text_in-props host laws (configuration_props m) ("refreshCron" ∷ "refresh_cron" ∷ [])
              (m.refresh_cron) refl,
          texts_in-props host laws (configuration_props m) ("dnsServers" ∷ "dns_servers" ∷ [])
              (m.dns_servers) refl,
          texts_in-props host laws (configuration_props m) ("ipv4Resolvers" ∷ "ipv4_resolvers" ∷ [])
              (m.ipv4_resolvers) refl,
          texts_in-props host laws (configuration_props m) ("ipv6Resolvers" ∷ "ipv6_resolvers" ∷ [])
              (m.ipv6_resolvers) refl,
          decimal_in-props host laws (configuration_props m)
              ("ipv4ResolverAgreementThreshold" ∷ "ipv4_resolver_agreement_threshold" ∷ [])
              (m.ipv4_resolver_agreement_threshold) refl,
          decimal_in-props host laws (configuration_props m)
              ("ipv6ResolverAgreementThreshold" ∷ "ipv6_resolver_agreement_threshold" ∷ [])
              (m.ipv6_resolver_agreement_threshold) refl,
          number_in-props host laws (configuration_props m)
              ("ipv4ResolverMinResponses" ∷ "ipv4_resolver_min_responses" ∷ [])
              (m.ipv4_resolver_min_responses) refl,
          number_in-props host laws (configuration_props m)
              ("ipv6ResolverMinResponses" ∷ "ipv6_resolver_min_responses" ∷ [])
              (m.ipv6_resolver_min_responses) refl,
          boolean_in-props host laws (configuration_props m)
              ("notificationsEnabled" ∷ "notifications_enabled" ∷ []) (m.notifications_enabled)
              refl,
          boolean_in-props host laws (configuration_props m)
              ("notificationsOnSuccess" ∷ "notifications_on_success" ∷ [])
              (m.notifications_on_success) refl,
          texts_in-props host laws (configuration_props m)
              ("notificationsRecipients" ∷ "notifications_recipients" ∷ [])
              (m.notifications_recipients) refl,
          number_in-props host laws (configuration_props m)
              ("notificationsCooldownMinutes" ∷ "notifications_cooldown_minutes" ∷ [])
              (m.notifications_cooldown_minutes) refl,
          text_in-props host laws (configuration_props m)
              ("notificationsSubjectPrefix" ∷ "notifications_subject_prefix" ∷ [])
              (m.notifications_subject_prefix) refl,
          boolean_in-props host laws (configuration_props m) ("acmeEnabled" ∷ "acme_enabled" ∷ [])
              (m.acme_enabled) refl,
          text_in-props host laws (configuration_props m) ("acmeEmail" ∷ "acme_email" ∷ [])
              (m.acme_email) refl,
          boolean_in-props host laws (configuration_props m) ("acmeStaging" ∷ "acme_staging" ∷ [])
              (m.acme_staging) refl,
          number_in-props host laws (configuration_props m)
              ("acmeRenewBeforeDays" ∷ "acme_renew_before_days" ∷ []) (m.acme_renew_before_days)
              refl,
        )
        refl
