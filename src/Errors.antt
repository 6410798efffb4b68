-- ===== src/Errors.antt =====
-- The classification of errors: internal/controller/database_controller.go (isAWSPermissionError,
-- isAWSResourceNotFoundError), the error types of internal/secrets/aws_secrets_manager.go, and
-- errors.As and apierrors.IsNotFound, which walk the chain of wrapped errors.
pub mod Laws
use database_user_operator.Base.{
  Bool, true, false, Option, none, some, String, ◌<>◌, List, [], ◌∷◌, to_lower, contains_any,
  GoError, plain, wrapped, api_not_found, resource_not_found, invalid_request, secret_not_found,
  secret_marked_for_deletion, Result, ok, err,
}

-- err.Error()
unfoldable pub error_text : GoError → String
error_text (plain s) = s
error_text (wrapped s e) = s <> (": " <> error_text e)
error_text (api_not_found s) = s
error_text (resource_not_found s) = s
error_text (invalid_request s) = s
error_text (secret_not_found name e) = "secret " <> (name <> " does not exist")
error_text (secret_marked_for_deletion name e) = "secret " <> (name <> " is marked for deletion")

-- errors.Unwrap
unfoldable pub unwrap : GoError → Option GoError
unwrap (wrapped s e) = some e
unwrap (secret_not_found name e) = some e
unwrap (secret_marked_for_deletion name e) = some e
unwrap _ = none

-- apierrors.IsNotFound(err): some error of the chain is an API error with reason NotFound.
unfoldable pub is_not_found : GoError → Bool
is_not_found (api_not_found s) = true
is_not_found (wrapped s e) = is_not_found e
is_not_found (secret_not_found name e) = is_not_found e
is_not_found (secret_marked_for_deletion name e) = is_not_found e
is_not_found _ = false

-- errors.As(err, **types.ResourceNotFoundException)
unfoldable pub as_resource_not_found : GoError → Bool
as_resource_not_found (resource_not_found s) = true
as_resource_not_found (wrapped s e) = as_resource_not_found e
as_resource_not_found (secret_not_found name e) = as_resource_not_found e
as_resource_not_found (secret_marked_for_deletion name e) = as_resource_not_found e
as_resource_not_found _ = false

-- errors.As(err, **types.InvalidRequestException)
unfoldable pub as_invalid_request : GoError → Bool
as_invalid_request (invalid_request s) = true
as_invalid_request (wrapped s e) = as_invalid_request e
as_invalid_request (secret_not_found name e) = as_invalid_request e
as_invalid_request (secret_marked_for_deletion name e) = as_invalid_request e
as_invalid_request _ = false

-- errors.As(err, **SecretNotFoundError)
unfoldable pub as_secret_not_found : GoError → Bool
as_secret_not_found (secret_not_found name e) = true
as_secret_not_found (wrapped s e) = as_secret_not_found e
as_secret_not_found (secret_marked_for_deletion name e) = as_secret_not_found e
as_secret_not_found _ = false

-- errors.As(err, **SecretMarkedForDeletionError)
unfoldable pub as_secret_marked_for_deletion : GoError → Bool
as_secret_marked_for_deletion (secret_marked_for_deletion name e) = true
as_secret_marked_for_deletion (wrapped s e) = as_secret_marked_for_deletion e
as_secret_marked_for_deletion (secret_not_found name e) = as_secret_marked_for_deletion e
as_secret_marked_for_deletion _ = false

abbrev pub permission_words : List String
permission_words =
    "accessdeniedexception" ∷ "accessdenied" ∷ "access denied" ∷ "not authorized"
    ∷ "insufficient permissions" ∷ "forbidden" ∷ "unauthorizedoperation" ∷ []

abbrev pub not_found_words : List String
not_found_words =
    "resourcenotfoundexception" ∷ "resource not found" ∷ "can't find the specified secret" ∷ []

-- isAWSPermissionError; a nil error is `none`.
unfoldable pub is_aws_permission_error : Option GoError → Bool
is_aws_permission_error none = false
is_aws_permission_error (some e) = contains_any (to_lower (error_text e)) permission_words

-- isAWSResourceNotFoundError
unfoldable pub is_aws_resource_not_found_error : Option GoError → Bool
is_aws_resource_not_found_error none = false
is_aws_resource_not_found_error (some e) = contains_any (to_lower (error_text e)) not_found_words
