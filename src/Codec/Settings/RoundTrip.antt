-- ===== src/Codec/Settings/RoundTrip.antt =====
-- `Configuration`: what is written is read again.
use hdns.Prelude.{true, ◌≡◌, refl, arith, All}
use hdns.Codec.Wire.{Wire, WireLaws, WireMoves, IsInt32}
use hdns.Codec.Messages.{ConfigurationMessage}
use hdns.Codec.Base.{create_base_configuration}
use hdns.Codec.Clauses.{select}
use hdns.Codec.Clauses.Rounds.{Steps, done, ◌▸◌}
use hdns.Codec.Clauses.Fields.{bool-Carries, double-Carries, int32-Carries, string-Carries}
use hdns.Codec.Clauses.Repeated.{strings-Carries}
use hdns.Codec.Settings.{configuration_fields, configuration_cases}

-- The messages whose numbers have the range of their types, whose texts survive UTF-8, whose thresholds
-- are what a double is printed as, and whose parts
-- have a length that can be written.
module _ (w : Wire) where
  abbrev pub IsConfiguration : ConfigurationMessage → Type 0
  IsConfiguration m =
      IsInt32 (m.log_level)
      × (w.keeps (m.refresh_cron) ≡ true)
      × All (λ s. w.keeps s ≡ true) (m.dns_servers)
      × All (λ s. w.keeps s ≡ true) (m.ipv4_resolvers)
      × All (λ s. w.keeps s ≡ true) (m.ipv6_resolvers)
      × (w.prints (m.ipv4_resolver_agreement_threshold) ≡ true)
      × (w.prints (m.ipv6_resolver_agreement_threshold) ≡ true)
      × IsInt32 (m.ipv4_resolver_min_responses)
      × IsInt32 (m.ipv6_resolver_min_responses)
      × All (λ s. w.keeps s ≡ true) (m.notifications_recipients)
      × IsInt32 (m.notifications_cooldown_minutes)
      × (w.keeps (m.notifications_subject_prefix) ≡ true)
      × (w.keeps (m.acme_email) ≡ true)
      × IsInt32 (m.acme_renew_before_days)

  module _ (laws : WireLaws w) (moves : WireMoves w) where
    pub configuration-Steps :
        (m : ConfigurationMessage)
        → IsConfiguration m
        → Steps w (configuration_cases w) (configuration_fields w m) create_base_configuration m
    unfolding select
    configuration-Steps m (i1, i2, i3, i4, i5, i6, i7, i8, i9, i10, i11, i12, i13, i14) =
        int32-Carries w laws moves 8 _ (m.log_level) i1 refl (omega arith) refl
        ▸ string-Carries w laws moves 18 _ (m.refresh_cron) i2 refl (omega arith) refl
        ▸ strings-Carries w laws moves 26 _ (λ v m. record m { dns_servers = v }) (m.dns_servers) i3
            refl (λ vs v. refl) (omega arith) refl
        ▸ strings-Carries w laws moves 34 _ (λ v m. record m { ipv4_resolvers = v })
            (m.ipv4_resolvers) i4 refl (λ vs v. refl) (omega arith) refl
        ▸ strings-Carries w laws moves 42 _ (λ v m. record m { ipv6_resolvers = v })
            (m.ipv6_resolvers) i5 refl (λ vs v. refl) (omega arith) refl
        ▸ double-Carries w laws moves 121 _ (m.ipv4_resolver_agreement_threshold) i6 refl
            (omega arith) refl
        ▸ double-Carries w laws moves 129 _ (m.ipv6_resolver_agreement_threshold) i7 refl
            (omega arith) refl
        ▸ int32-Carries w laws moves 136 _ (m.ipv4_resolver_min_responses) i8 refl (omega arith)
            refl
        ▸ int32-Carries w laws moves 144 _ (m.ipv6_resolver_min_responses) i9 refl (omega arith)
            refl
        ▸ bool-Carries w laws moves 48 _ (m.notifications_enabled) refl (omega arith) refl
        ▸ bool-Carries w laws moves 56 _ (m.notifications_on_success) refl (omega arith) refl
        ▸ strings-Carries w laws moves 66 _ (λ v m. record m { notifications_recipients = v })
            (m.notifications_recipients) i10 refl (λ vs v. refl) (omega arith) refl
        ▸ int32-Carries w laws moves 72 _ (m.notifications_cooldown_minutes) i11 refl (omega arith)
            refl
        ▸ string-Carries w laws moves 82 _ (m.notifications_subject_prefix) i12 refl (omega arith)
            refl
        ▸ bool-Carries w laws moves 88 _ (m.acme_enabled) refl (omega arith) refl
        ▸ string-Carries w laws moves 98 _ (m.acme_email) i13 refl (omega arith) refl
        ▸ bool-Carries w laws moves 104 _ (m.acme_staging) refl (omega arith) refl
        ▸ int32-Carries w laws moves 112 _ (m.acme_renew_before_days) i14 refl (omega arith) refl
        ▸ done
