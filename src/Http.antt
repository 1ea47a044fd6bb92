-- ===== src/Http.antt =====
-- How a request ends: a value, an HTTPException that the code raises, or an exception of a library
-- that no handler catches (FastAPI answers 500). The database comes back in each case, since what
-- was committed stays committed.
use restaurant_reservation_s.Prelude.{ℕ}

-- The declared constraints that an INSERT or UPDATE can violate (the names of app/models and of
-- alembic/versions/0001_initial_schema.py).
pub data Constraint : Type 0 where
  no_double_booking ck_reservations_party ck_reservations_time_order : Constraint
  guest_name_not_null first_name_not_null last_name_not_null : Constraint
  fk_reservations_user fk_reservations_restaurant fk_reservations_table : Constraint
  ck_order_items_qty : Constraint
  uq_users_email ck_users_name_len : Constraint

-- The texts of the HTTPExceptions, by what they say.
pub data Detail : Type 0 where
  table_not_found wrong_restaurant table_not_bookable party_exceeds_capacity : Detail
  already_booked violates_constraint : Detail
  reservation_not_found not_your_reservation : Detail
  send_if_match reservation_changed changed_concurrently : Detail
  restaurant_not_found reservation_of_another_user malformed_product_id unknown_product : Detail
  product_of_another_restaurant product_unavailable order_not_found not_your_order : Detail
  illegal_transition : Detail
  not_authenticated requires_role invalid_login account_disabled : Detail
  email_registered cannot_read_user user_not_found product_not_found : Detail
  bad_window cannot_enter_phase : Detail

pub data Exception : Type 0 where
  http_exception : ℕ → Detail → Exception
  integrity_error : Constraint → Exception
  undefined_column stale_data_error attribute_error validation_error raiseload_error : Exception
  runtime_error key_error data_error type_error : Exception

pub data Outcome {ℓ} (A : Type ℓ) : Type ℓ where
  ok : A → Outcome A
  raised : Exception → Outcome A

-- The status line of the answer: 200 stands for the success status of the route.
unfoldable pub status_code {ℓ} : {A : Type ℓ} → Outcome A → ℕ
status_code (ok _) = 200
status_code (raised (http_exception status _)) = status
status_code (raised (integrity_error _)) = 500
status_code (raised undefined_column) = 500
status_code (raised stale_data_error) = 500
status_code (raised attribute_error) = 500
status_code (raised validation_error) = 500
status_code (raised raiseload_error) = 500
status_code (raised runtime_error) = 500
status_code (raised key_error) = 500
status_code (raised data_error) = 500
status_code (raised type_error) = 500
