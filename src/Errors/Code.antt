-- ===== src/Errors/Code.antt =====
-- The error codes that the modelled code gives to src/lib/errors.ts.
pub data ErrorCode : Type 0 where
  validation_error bad_request unauthorized forbidden not_found conflict : ErrorCode
  rate_limited internal_error : ErrorCode
  product_not_found insufficient_stock out_of_stock product_inactive : ErrorCode
  no_active_session empty_bill no_payments customer_not_found : ErrorCode
  payment_amount_mismatch customer_required_for_credit price_changed : ErrorCode
  bill_not_found bill_already_cancelled bill_not_cancellable : ErrorCode
  credit_reversal_exceeds_balance amount_exceeds_balance held_bill_not_found : ErrorCode
  shop_not_found cashier_not_found purchase_not_found purchase_already_reversed : ErrorCode
  purchase_not_reversible purchase_reversal_blocked role_not_allowed : ErrorCode
  shop_access_denied invalid_date_range cashier_not_in_shop : ErrorCode
  recovery_not_configured recovery_throttled recovery_verification_failed : ErrorCode
  recovery_grant_invalid recovery_request_not_found recovery_request_expired : ErrorCode
  recovery_account_not_active recovery_request_not_actionable : ErrorCode
