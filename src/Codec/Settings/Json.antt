-- ===== src/Codec/Settings/Json.antt =====
-- frontend/src/app/global/model/api.ts: `fromJSON` and `toJSON` of `Configuration`.
pub mod Back
pub mod Names
use hdns.Prelude.{Option, some, List, [], ◌∷◌}
use hdns.Codec.Messages.{ConfigurationMessage}
use hdns.Codec.Json.{Json, object, Host}
use hdns.Codec.Json.Write.{
  Chunk, props, boolean_json, decimal_json, number_json, text_json, texts_json,
}
use hdns.Codec.Json.Read.{◌>>=◌, boolean_in, decimal_in, number_in, text_in, texts_in}

abbrev pub configuration_props : ConfigurationMessage → List Chunk
configuration_props m =
    ("logLevel", number_json (m.log_level))
    ∷ ("refreshCron", text_json (m.refresh_cron))
    ∷ ("dnsServers", texts_json (m.dns_servers))
    ∷ ("ipv4Resolvers", texts_json (m.ipv4_resolvers))
    ∷ ("ipv6Resolvers", texts_json (m.ipv6_resolvers))
    ∷ ("ipv4ResolverAgreementThreshold", decimal_json (m.ipv4_resolver_agreement_threshold))
    ∷ ("ipv6ResolverAgreementThreshold", decimal_json (m.ipv6_resolver_agreement_threshold))
    ∷ ("ipv4ResolverMinResponses", number_json (m.ipv4_resolver_min_responses))
    ∷ ("ipv6ResolverMinResponses", number_json (m.ipv6_resolver_min_responses))
    ∷ ("notificationsEnabled", boolean_json (m.notifications_enabled))
    ∷ ("notificationsOnSuccess", boolean_json (m.notifications_on_success))
    ∷ ("notificationsRecipients", texts_json (m.notifications_recipients))
    ∷ ("notificationsCooldownMinutes", number_json (m.notifications_cooldown_minutes))
    ∷ ("notificationsSubjectPrefix", text_json (m.notifications_subject_prefix))
    ∷ ("acmeEnabled", boolean_json (m.acme_enabled))
    ∷ ("acmeEmail", text_json (m.acme_email))
    ∷ ("acmeStaging", boolean_json (m.acme_staging))
    ∷ ("acmeRenewBeforeDays", number_json (m.acme_renew_before_days))
    ∷ []

unfoldable pub to_json_configuration : ConfigurationMessage → Json
to_json_configuration m = object (props (configuration_props m))

module _ (host : Host) where
  unfoldable pub from_json_configuration : Json → Option ConfigurationMessage
  from_json_configuration o = do
    log_level ← number_in host o ("logLevel" ∷ "log_level" ∷ [])
    refresh_cron ← text_in host o ("refreshCron" ∷ "refresh_cron" ∷ [])
    dns_servers ← texts_in host o ("dnsServers" ∷ "dns_servers" ∷ [])
    ipv4_resolvers ← texts_in host o ("ipv4Resolvers" ∷ "ipv4_resolvers" ∷ [])
    ipv6_resolvers ← texts_in host o ("ipv6Resolvers" ∷ "ipv6_resolvers" ∷ [])
    ipv4_resolver_agreement_threshold ←
        decimal_in host o
          ("ipv4ResolverAgreementThreshold" ∷ "ipv4_resolver_agreement_threshold" ∷ [])
    ipv6_resolver_agreement_threshold ←
        decimal_in host o
          ("ipv6ResolverAgreementThreshold" ∷ "ipv6_resolver_agreement_threshold" ∷ [])
    ipv4_resolver_min_responses ←
        number_in host o ("ipv4ResolverMinResponses" ∷ "ipv4_resolver_min_responses" ∷ [])
    ipv6_resolver_min_responses ←
        number_in host o ("ipv6ResolverMinResponses" ∷ "ipv6_resolver_min_responses" ∷ [])
    notifications_enabled ←
        boolean_in host o ("notificationsEnabled" ∷ "notifications_enabled" ∷ [])
    notifications_on_success ←
        boolean_in host o ("notificationsOnSuccess" ∷ "notifications_on_success" ∷ [])
    notifications_recipients ←
        texts_in host o ("notificationsRecipients" ∷ "notifications_recipients" ∷ [])
    notifications_cooldown_minutes ←
        number_in host o ("notificationsCooldownMinutes" ∷ "notifications_cooldown_minutes" ∷ [])
    notifications_subject_prefix ←
        text_in host o ("notificationsSubjectPrefix" ∷ "notifications_subject_prefix" ∷ [])
    acme_enabled ← boolean_in host o ("acmeEnabled" ∷ "acme_enabled" ∷ [])
    acme_email ← text_in host o ("acmeEmail" ∷ "acme_email" ∷ [])
    acme_staging ← boolean_in host o ("acmeStaging" ∷ "acme_staging" ∷ [])
    acme_renew_before_days ←
        number_in host o ("acmeRenewBeforeDays" ∷ "acme_renew_before_days" ∷ [])
    some (record {
      log_level = log_level;
      refresh_cron = refresh_cron;
      dns_servers = dns_servers;
      ipv4_resolvers = ipv4_resolvers;
      ipv6_resolvers = ipv6_resolvers;
      ipv4_resolver_agreement_threshold = ipv4_resolver_agreement_threshold;
      ipv6_resolver_agreement_threshold = ipv6_resolver_agreement_threshold;
      ipv4_resolver_min_responses = ipv4_resolver_min_responses;
      ipv6_resolver_min_responses = ipv6_resolver_min_responses;
      notifications_enabled = notifications_enabled;
      notifications_on_success = notifications_on_success;
      notifications_recipients = notifications_recipients;
      notifications_cooldown_minutes = notifications_cooldown_minutes;
      notifications_subject_prefix = notifications_subject_prefix;
      acme_enabled = acme_enabled;
      acme_email = acme_email;
      acme_staging = acme_staging;
      acme_renew_before_days = acme_renew_before_days;
    })
