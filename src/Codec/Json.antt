-- ===== src/Codec/Json.antt =====
-- Values of type `any`, as `fromJSON` reads them and `toJSON` makes them.
pub mod Write
pub mod Read
pub mod Back
pub mod Agree
use hdns.Prelude.{
  zero, suc, ℤ, pos, negsuc, String, ◌≡◌, Bool, true, false, not, Option, none, some, List, [], ◌∷◌,
  map, str_eq, if◌then◌else◌,
}
use hdns.Model.Enums.{
  AnyValue, RecordPurpose, TaskTrigger, record_purpose_from_json, record_purpose_to_json,
  task_trigger_from_json, task_trigger_to_json,
}
use hdns.Codec.Clauses.{is_zero}

mutual
  -- A number is an integer, or it stands by its decimal text, as a threshold does.
  pub data Json : Type 0 where
    undefined null : Json
    boolean : Bool → Json
    number : ℤ → Json
    decimal : String → Json
    text : String → Json
    array : Items → Json
    object : Props → Json

  pub data Items : Type 0 where
    nil : Items
    cons : Json → Items → Items

  pub data Props : Type 0 where
    end : Props
    prop : String → Json → Props → Props

-- What JavaScript makes of any value: `Number`, `String` and `Boolean`, and the properties of a value that
-- is no object. Nothing stands for a throw, and for a number that is no integer where the messages
-- have an integer.
pub record Host : Type 0 where
  pub to_number : Json → Option ℤ
  pub to_decimal : Json → Option String
  pub to_text : Json → Option String
  pub to_boolean : Json → Bool
  pub inherited : Json → String → Json

-- A value that has the type already is what the conversion gives.
pub record HostLaws (host : Host) : Type 0 where
  pub number_back : (z : ℤ) → host.to_number (number z) ≡ some z
  pub decimal_back : (s : String) → host.to_decimal (decimal s) ≡ some s
  pub text_back : (s : String) → host.to_text (text s) ≡ some s
  pub boolean_back : (b : Bool) → host.to_boolean (boolean b) ≡ b
