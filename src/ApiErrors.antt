-- ===== src/ApiErrors.antt =====
-- internal/api/interface/error.go: the translation of errors to the statuses that the API answers with.
use perses.Prelude.Result.{
  Error, Result, ok, err, internal, not_found, conflict, bad_request, unauthorized, forbidden,
  unsupported_media_type, key_not_found, key_conflict, errorf,
}
use perses.Prelude.{ℕ, String, Bool, true, false, ◌≡◌, refl, Option, none, some, if◌then◌else◌}

-- The values of PersesError
pub data PersesError : Type 0 where
  internal_error not_found_error conflict_error bad_request_error unauthorized_error forbidden_error
        unsupported_media_type_error :
      PersesError

-- databaseModel.ErrorCode
pub data ErrorCode : Type 0 where
  error_code_not_found error_code_conflict : ErrorCode

-- An error of the database, one that wraps a PersesError with a text, one of the web framework with
-- its status and message, or any other.
pub data GoError : Type 0 where
  database : ErrorCode → String → GoError
  perses_error : PersesError → String → GoError
  http_error : ℕ → String → GoError
  other_error : String → GoError

unfoldable pub is_key_not_found : GoError → Bool
is_key_not_found (database error_code_not_found key) = true
is_key_not_found _ = false

unfoldable pub is_key_conflict : GoError → Bool
is_key_conflict (database error_code_conflict key) = true
is_key_conflict _ = false

unfoldable pub message : PersesError → String
message internal_error = "internal server error"
message not_found_error = "document not found"
message conflict_error = "document already exists"
message bad_request_error = "bad request"
message unauthorized_error = "unauthorized"
message forbidden_error = "forbidden access"
message unsupported_media_type_error = "unsupported media type"

unfoldable pub status : PersesError → ℕ
status internal_error = 500
status not_found_error = 404
status conflict_error = 409
status bad_request_error = 400
status unauthorized_error = 401
status forbidden_error = 403
status unsupported_media_type_error = 415

-- the tests after those on the errors of the database
unfoldable pub handle_other : GoError → GoError
handle_other (perses_error e text) = http_error (status e) text
handle_other (http_error code text) = http_error code text
handle_other (database c key) = http_error 500 (message internal_error)
handle_other (other_error text) = http_error 500 (message internal_error)

-- HandleError; no error is a nil one
unfoldable pub handle_error : Option GoError → Option GoError
handle_error none = none
handle_error (some e) =
    if is_key_not_found e
    then some (http_error 404 (message not_found_error))
    else if is_key_conflict e
    then some (http_error 409 (message conflict_error))
    else some (handle_other e)

-- Handling an error that was already handled changes nothing, so that a service may translate the
-- errors that its endpoint translates again.
pub handle_error_idem : (e : Option GoError) → handle_error (handle_error e) ≡ handle_error e
unfolding handle_error is_key_not_found is_key_conflict handle_other
handle_error_idem none = refl
handle_error_idem (some (database error_code_not_found key)) = refl
handle_error_idem (some (database error_code_conflict key)) = refl
handle_error_idem (some (perses_error e text)) = refl
handle_error_idem (some (http_error code text)) = refl
handle_error_idem (some (other_error text)) = refl

-- HandleError on the errors of a service, where the class of an error stands for its status.
unfoldable pub class_of : Error → Error
class_of (key_not_found key) = not_found
class_of (key_conflict key) = conflict
class_of (errorf text) = internal
class_of internal = internal
class_of not_found = not_found
class_of conflict = conflict
class_of bad_request = bad_request
class_of unauthorized = unauthorized
class_of forbidden = forbidden
class_of unsupported_media_type = unsupported_media_type

-- if err != nil { return HandleError(err) }
unfoldable pub or_handled : {A : Type 0} → Result A → Result A
or_handled (err e) = err (class_of e)
or_handled (ok a) = ok a

pub or_handled-eq-ok : {A : Type 0} (r : Result A) {a : A} → or_handled r ≡ ok a → r ≡ ok a
unfolding or_handled
or_handled-eq-ok (err e) h = cc
or_handled-eq-ok (ok b) h = h
