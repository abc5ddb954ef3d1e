-- ===== src/RecordForm/Saving.antt =====
-- What the form sends.
use hdns.Prelude.{
  ◌≡◌, refl, String, Bool, true, false, not, ◌&&◌, ◌||◌, some, List, [], ◌∷◌, ◌++◌, arith, get_or,
  ◌==◌, leb, str_eq, eq_iff, if◌then◌else◌, find, any, trim, Bool-cases, inl, inr,
}
use hdns.Model.Enums.{RecordPurpose}
use hdns.Model.Messages.{Record, Zone}
use hdns.RecordsTable.State.{success}
use hdns.RecordForm.Form.{
  RecordForm, Effect, upsert, error, open_form, prepare_form, on_zones, on_prepared, load_zones,
  is_ddns, is_unspecified, payload, domain, is_valid, save,
}

-- What is sent is fit for the service: a zone, a name, a time to live and a domain.
abbrev pub fit : Record → Bool
fit r =
    leb 1 r.zone_id && not (str_eq r.name "") && leb 1 r.ttl && not (str_eq (get_or r.domain "") "")

-- All that is sent is fit.
abbrev pub all_fit : List Effect → Bool
all_fit [] = true
all_fit (upsert r ∷ es) = fit r && all_fit es
all_fit (e ∷ es) = all_fit es

pub all_fit-concat :
    (es : List Effect) (e : Effect) → all_fit (es ++ e ∷ []) ≡ (all_fit es && all_fit (e ∷ []))
all_fit-concat [] e = refl
all_fit-concat (upsert r ∷ es) e = ground (arith, all_fit-concat es e)
all_fit-concat (Effect.open_drawer ∷ es) e = all_fit-concat es e
all_fit-concat (Effect.close_drawer ∷ es) e = all_fit-concat es e
all_fit-concat (Effect.saved ∷ es) e = all_fit-concat es e
all_fit-concat (Effect.get_zones i t ∷ es) e = all_fit-concat es e
all_fit-concat (Effect.message t ∷ es) e = all_fit-concat es e
all_fit-concat (error t u ∷ es) e = all_fit-concat es e

-- The validator rejects the empty text.
module _ (required : String → Bool) (required-empty : required "" ≡ false) where
  valid-fit :
      (s : RecordForm)
      → is_valid required s ≡ true
      → str_eq (domain s) "" ≡ false
      → fit (payload s) ≡ true
  unfolding is_valid payload
  valid-fit s v d = elim (Bool-cases (str_eq s.name "")) [
    | inl e ↦ absurd (let n = (eq_iff s.name "").0 e in ground (arith, n, required-empty))
    | inr e ↦ ground (arith, d)
  ]

  -- Whatever is in the form, saving it keeps to sending records that have a zone, a name, a time to
  -- live of at least 1 and a domain, provided that the library's validator rejects the empty text.
  pub save-fit :
      (s : RecordForm) → all_fit s.effects ≡ true → all_fit (save required s).effects ≡ true
  unfolding save
  save-fit s h = elim (Bool-cases (is_valid required s)) [
    | inl v ↦ elim (Bool-cases (str_eq (domain s) "")) [
      | inl d ↦ rw (v, d, all_fit-concat s.effects) (ground (arith, h))
      | inr d ↦ rw (v, d, all_fit-concat s.effects) (ground (arith, h, valid-fit s v d))
    ]
    | inr v ↦ rw v h
  ]

find-any :
    (f : Zone → Bool) (zones : List Zone) (z : Zone) → find f zones ≡ some z → any f zones ≡ true
find-any f [] z e = cc
find-any f (y ∷ zones) z e = ground (arith, find-any f zones z)

-- After the form was opened for a record and the answer with the zones has come, and nothing was
-- changed, the payload is the record as it was, but for these fields: the token is empty, the
-- domain is the name of the zone, the address for ACME is trimmed, and empty for a record that only
-- does DDNS, and the wildcard flag is off for an unspecified purpose. The record has a purpose, a
-- flag and an address, and its zone, which has a name, is among the zones.
pub open_zones_payload :
    (r : Record) (s : RecordForm) (zones : List Zone) (z : Zone) (p : RecordPurpose)
    (wildcard : Bool) (email zone_name : String)
    → r.purpose ≡ some p
    → r.include_wildcard ≡ some wildcard
    → r.acme_email ≡ some email
    → find (λ y. y.id == r.zone_id) zones ≡ some z
    → z.name ≡ some zone_name
    → payload (on_zones (success (some zones)) (on_prepared (some r) (open_form (some r) s)))
      ≡ record r {
        token = "";
        domain = some (trim zone_name);
        include_wildcard = some (if is_unspecified p then false else wildcard);
        acme_email = some (if is_ddns p then "" else trim email);
      }
unfolding payload domain on_zones on_prepared open_form prepare_form load_zones
open_zones_payload r s zones z p wildcard email zone_name ep ew ee ez en =
    let a = find-any (λ y. y.id == r.zone_id) zones z ez in
    elim (Bool-cases (not (r.id == 0) || not (str_eq r.token ""))) [
      | inl c ↦ rw (c, a, ez, en, ep, ew, ee) refl
      | inr c ↦ rw (c, a, ez, en, ep, ew, ee) refl
    ]
