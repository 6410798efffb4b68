-- ===== src/Base/Outcome.antt =====
-- Go's errors, and calls that return a value or an error.
use Prim.Native.String.{String}

-- An error value, with the chain that errors.As and errors.Unwrap walk.
pub data GoError : Type 0 where
  -- fmt.Errorf with no %w, and the errors of libraries that the program does not tell apart
  plain : String → GoError
  -- fmt.Errorf("<prefix>: %w", err)
  wrapped : String → GoError → GoError
  -- a Kubernetes API error with reason NotFound
  api_not_found : String → GoError
  -- types.ResourceNotFoundException
  resource_not_found : String → GoError
  -- types.InvalidRequestException
  invalid_request : String → GoError
  -- *SecretNotFoundError and *SecretMarkedForDeletionError, with SecretName and Err
  secret_not_found : String → GoError → GoError
  secret_marked_for_deletion : String → GoError → GoError

pub data Result {ℓ} (A : Type ℓ) : Type ℓ where
  ok : A → Result A
  err : GoError → Result A
