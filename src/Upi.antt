-- ===== src/Upi.antt =====
-- src/lib/upi.ts: the receiving account of a shop. A text is the list of its UTF-16 code units.
-- The human-readable messages are not modelled: a refusal is told from an acceptance.
pub mod Laws
pub mod Masking
use backend_v.Prelude.{
  ℕ, ◌+◌, Bool, ◌&&◌, ◌||◌, not, true, false, Option, none, some, List, [], ◌∷◌, ◌++◌, nat_beq, leb,
  any, length, map, if◌then◌else◌,
}

abbrev pub Text : Type 0
Text = List ℕ

abbrev between : ℕ → ℕ → ℕ → Bool
between low high c = leb low c && leb c high

-- White space and line ends of ECMAScript.
abbrev pub is_blank : ℕ → Bool
is_blank c =
    between 9 13 c
    || nat_beq c 32
    || nat_beq c 160
    || nat_beq c 5_760
    || between 8_192 8_202 c
    || between 8_232 8_233 c
    || nat_beq c 8_239
    || nat_beq c 8_287
    || nat_beq c 12_288
    || nat_beq c 65_279

unfoldable pub trim_start : Text → Text
trim_start [] = []
trim_start (c ∷ cs) = if is_blank c then trim_start cs else c ∷ cs

abbrev is_empty : Text → Bool
is_empty [] = true
is_empty (c ∷ cs) = false

unfoldable pub trim_end : Text → Text
trim_end [] = []
trim_end (c ∷ cs) = let rest = trim_end cs in if is_blank c && is_empty rest then [] else c ∷ rest

abbrev pub trim : Text → Text
trim raw = trim_end (trim_start raw)

abbrev is_letter : ℕ → Bool
is_letter c = between 65 90 c || between 97 122 c

-- `[A-Za-z0-9._-]`
abbrev is_name_unit : ℕ → Bool
is_name_unit c = is_letter c || between 48 57 c || nat_beq c 46 || nat_beq c 95 || nat_beq c 45

-- `[A-Za-z]{2,64}$`, after `n` letters.
unfoldable pub is_provider : ℕ → Text → Bool
is_provider n [] = leb 2 n && leb n 64
is_provider n (c ∷ cs) = is_letter c && is_provider (n + 1) cs

-- `^[A-Za-z0-9._-]{2,256}@`, after `n` units, and the rest. No unit of the name is an @.
unfoldable pub matches_upi_id : ℕ → Text → Bool
matches_upi_id n [] = false
matches_upi_id n (c ∷ cs) =
    if nat_beq c 64
    then leb 2 n && leb n 256 && is_provider 0 cs
    else is_name_unit c && matches_upi_id (n + 1) cs

-- `validateUpiId(raw) === null`
unfoldable pub validate_upi_id : Text → Bool
validate_upi_id raw = matches_upi_id 0 (trim raw)

abbrev is_control : ℕ → Bool
is_control c = between 0 31 c || between 127 159 c

-- `validatePayeeName(raw) === null`
unfoldable pub validate_payee_name : Text → Bool
validate_payee_name raw =
    let value = trim raw in
    leb 2 (length value) && leb (length value) 50 && not (any is_control value)

-- `toLowerCase` on the letters A to Z, which are the only letters of an id that was accepted.
abbrev pub to_lower : ℕ → ℕ
to_lower c = if between 65 90 c then c + 32 else c

unfoldable pub normalize_upi_id : Text → Text
normalize_upi_id raw = map to_lower (trim raw)

pub data UpiReceiverSource : Type 0 where
  shop_source common_source no_source : UpiReceiverSource

pub record UpiCommonAccountData : Type 0 where
  pub upi_id : Text
  pub payee_name : Text
  pub enabled : Bool

pub data UpiMode : Type 0 where
  common_mode custom_mode : UpiMode

pub record UpiShopAccountData : Type 0 where
  pub mode : UpiMode
  pub custom_upi_id : Option Text
  pub custom_payee_name : Option Text
  pub custom_enabled : Bool

pub record EffectiveReceiver : Type 0 where
  pub source : UpiReceiverSource
  pub upi_id : Option Text
  pub payee_name : Option Text

-- The account as it is used, if it is usable.
unfoldable pub usable : Option Text → Option Text → Option (Text × Text)
usable (some upi_id) (some payee_name) =
    if validate_upi_id upi_id && validate_payee_name payee_name
    then some (normalize_upi_id upi_id, trim payee_name)
    else none
usable upi_id payee_name = none

-- The custom account, where it is selected, enabled and usable.
unfoldable pub custom_account : Option UpiShopAccountData → Option (Text × Text)
custom_account none = none
custom_account (some s) = elim s.mode [
  | UpiMode.common_mode ↦ none
  | UpiMode.custom_mode ↦
      if s.custom_enabled then usable s.custom_upi_id s.custom_payee_name else none
]

-- The common account, where it is enabled and usable.
unfoldable pub common_account : Option UpiCommonAccountData → Option (Text × Text)
common_account none = none
common_account (some c) = if c.enabled then usable (some c.upi_id) (some c.payee_name) else none

abbrev receiver : UpiReceiverSource → Text × Text → EffectiveReceiver
receiver source a = record { source = source; upi_id = some a.0; payee_name = some a.1 }

abbrev pub or_common : Option (Text × Text) → EffectiveReceiver
or_common none = record { source = UpiReceiverSource.no_source; upi_id = none; payee_name = none }
or_common (some a) = receiver UpiReceiverSource.common_source a

abbrev pub or_custom : Option (Text × Text) → Option (Text × Text) → EffectiveReceiver
or_custom none common = or_common common
or_custom (some a) common = receiver UpiReceiverSource.shop_source a

unfoldable pub resolve_effective_receiver :
    Option UpiCommonAccountData → Option UpiShopAccountData → EffectiveReceiver
resolve_effective_receiver common shop = or_custom (custom_account shop) (common_account common)
