-- ===== src/Errors.antt =====
-- The `ApiError`s that the services raise, one constructor for each `code`. The HTTP status and
-- the message belong to the code and are not modelled.
pub data ApiError : Type 0 where
  not_authorized : ApiError
  not_found_or_hidden : ApiError
  validation_failed : ApiError
  invalid_state : ApiError
  idempotency_conflict : ApiError
  idempotency_key_required : ApiError
  reason_required : ApiError
  check_closed : ApiError
  remaining_balance_not_zero : ApiError
  overpayment_not_allowed : ApiError
  payment_void_not_allowed : ApiError
  outside_station_scope : ApiError
  invalid_preparation_transition : ApiError
  service_tracking_disabled : ApiError
  outside_hall_scope : ApiError
  not_ready_for_delivery : ApiError
  invalid_delivery_transition : ApiError
  bulk_mixed_table : ApiError
  bulk_item_invalid : ApiError
  session_expired : ApiError
  item_not_orderable : ApiError
  variant_invalid : ApiError
  modifier_invalid : ApiError
  fresh_presence_required : ApiError
  empty_cart : ApiError
  closed_table_session : ApiError
  token_expired : ApiError
  token_consumed : ApiError
  wrong_table_or_tenant : ApiError
  wrong_table_or_session : ApiError
  display_not_authenticated : ApiError
  not_virtual_test_table : ApiError
  physical_display_required : ApiError
  table_disabled : ApiError
  invalid_credentials : ApiError
  wrong_app_scope : ApiError
  setup_token_invalid : ApiError
  password_policy_failed : ApiError
  otp_required : ApiError
  otp_invalid : ApiError
  otp_locked : ApiError
  otp_expired : ApiError
  totp_invalid : ApiError
  totp_already_enrolled : ApiError
  unauthenticated : ApiError
  -- An exception that is no ApiError: the request is answered with status 500.
  unexpected_error : ApiError
