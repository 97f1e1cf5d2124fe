-- ===== src/Billing/Input.antt =====
-- The input of a checkout, as src/services/billingService.ts receives it.
use backend_v.Prelude.{
  ℕ, ◌+◌, Bool, ◌&&◌, true, false, Option, none, some, List, [], ◌∷◌, nat_beq, leb, if◌then◌else◌,
  String, map,
}
use backend_v.Prelude.Int.{ℤ, pos, negsuc}
use backend_v.Money.{Money}
use backend_v.Store.Schema.{RowId, PaymentMethod, cash, card, upi, credit}

-- A JavaScript number where the code counts: an integer, a number strictly between an integer and
-- the next, or none of these.
pub data JsNumber : Type 0 where
  whole fractional : ℤ → JsNumber
  not_finite : JsNumber

abbrev pub is_finite : JsNumber → Bool
is_finite (whole n) = true
is_finite (fractional n) = true
is_finite not_finite = false

abbrev pub is_integer : JsNumber → Bool
is_integer (whole n) = true
is_integer x = false

-- `x <= 0`
abbrev pub is_at_most_zero : JsNumber → Bool
is_at_most_zero (whole (pos n)) = nat_beq n 0
is_at_most_zero (whole (negsuc n)) = true
is_at_most_zero (fractional (pos n)) = false
is_at_most_zero (fractional (negsuc n)) = true
is_at_most_zero not_finite = false

-- The integer of a number that has passed `Number.isInteger`.
abbrev pub to_int : JsNumber → ℤ
to_int (whole n) = n
to_int (fractional n) = n
to_int not_finite = pos 0

pub record CheckoutItem : Type 0 where
  pub product_id : RowId
  pub quantity : JsNumber

-- A payment as the client names it: the method is a text, by its code points.
pub record CheckoutPayment : Type 0 where
  pub method : List ℕ
  pub amount : Money
  pub reference : Option String
  pub cash_received : Option Money

pub record CheckoutInput : Type 0 where
  pub shop_id : RowId
  pub cashier_id : RowId
  pub customer_id : Option RowId
  pub items : List CheckoutItem
  pub payments : List CheckoutPayment
  pub idempotency_key : Option RowId

-- `toLowerCase` on the letters A to Z. No other character's lower case is a letter of a method.
abbrev to_lower : ℕ → ℕ
to_lower c = if leb 65 c && leb c 90 then c + 32 else c

abbrev text_beq : List ℕ → List ℕ → Bool
text_beq [] [] = true
text_beq (a ∷ s) (b ∷ t) = nat_beq a b && text_beq s t
text_beq s t = false

-- `validMethods.has(p.method.toLowerCase())`, and `METHOD_MAP_REVERSE[…]` where it holds.
unfoldable pub method_of : List ℕ → Option PaymentMethod
method_of text =
    let s = map to_lower text in
    if text_beq s (99 ∷ 97 ∷ 115 ∷ 104 ∷ [])
    then some cash
    else (if text_beq s (99 ∷ 97 ∷ 114 ∷ 100 ∷ [])
        then some card
        else (if text_beq s (117 ∷ 112 ∷ 105 ∷ [])
            then some upi
            else (if text_beq s (99 ∷ 114 ∷ 101 ∷ 100 ∷ 105 ∷ 116 ∷ [])
                then some credit
                else none)))
