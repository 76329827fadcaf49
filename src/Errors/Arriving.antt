-- ===== src/Errors/Arriving.antt =====
-- How error codes are read at the other end.
use laplace.Prelude.{ℕ, ◌≡◌, ◌⊎◌, refl, Bool, true, false, ◌&&◌, not, leb, if◌then◌else◌, arith}
use laplace.Errors.Codes.{LaplaceError, internal, code, from_code, is_retryable}
use laplace.Errors.TenantErrors.{
  TenantError, to_proto_code, is_recoverable, not_found, inactive, invalid_id, invalid_tier_change,
  quota_exceeded, acquire_timeout, execution_timeout, runtime_error, path_denied,
  turbo_pool_exhausted, turbo_slot_state_error, turbo_slot_corruption, turbo_not_available,
  turbo_allocation_failed,
}

from_code-code : (e : LaplaceError) → from_code (code e) ≡ e
unfolding from_code code
from_code-code e = ground arith

code-from_code : (n : ℕ) → (code (from_code n) ≡ n) ⊎ (from_code n ≡ internal)
unfolding from_code code
code-from_code n = ground arith

-- The errors whose code is read as an error of the other kind.
abbrev pub misread : TenantError → Bool
misread (execution_timeout _ _ _) = true
misread (turbo_not_available _ _) = true
misread (turbo_pool_exhausted _ _ _) = true
misread (turbo_allocation_failed _ _) = true
misread _ = false

retry-to_proto_code :
    (t : TenantError)
    → is_retryable (from_code (to_proto_code t))
      ≡ (if misread t then not (is_recoverable t) else is_recoverable t)
unfolding is_retryable from_code to_proto_code is_recoverable
retry-to_proto_code (not_found _) = refl
retry-to_proto_code (inactive _) = refl
retry-to_proto_code (invalid_id _) = refl
retry-to_proto_code (invalid_tier_change _ _) = refl
retry-to_proto_code (quota_exceeded _) = refl
retry-to_proto_code (acquire_timeout _) = refl
retry-to_proto_code (execution_timeout _ _ _) = refl
retry-to_proto_code (runtime_error _) = refl
retry-to_proto_code (path_denied _) = refl
retry-to_proto_code (turbo_pool_exhausted _ _ _) = refl
retry-to_proto_code (turbo_slot_state_error _ _ _) = refl
retry-to_proto_code (turbo_slot_corruption _) = refl
retry-to_proto_code (turbo_not_available _ _) = refl
retry-to_proto_code (turbo_allocation_failed _ _) = refl
retry-to_proto_code (TenantError.internal _) = refl

documented_range : (e : LaplaceError) → (leb 4096 (code e) && leb (code e) 8191) ≡ leb 5000 (code e)
unfolding code
documented_range e = ground arith

-- An error is read back from its code, and a code that is not one is read as an internal error. The
-- code of a tenant's error is read as one that a client may retry just if the error is recoverable,
-- except for the four that `misread` lists, where it is the other way round. The range 0x1000 to
-- 0x1FFF has just the codes from 5000 on.
pub from_code_lem :
    (e : LaplaceError) (n : ℕ) (t : TenantError)
    → (from_code (code e) ≡ e)
      × ((code (from_code n) ≡ n) ⊎ (from_code n ≡ internal))
      × (is_retryable (from_code (to_proto_code t))
          ≡ (if misread t then not (is_recoverable t) else is_recoverable t))
      × ((leb 4096 (code e) && leb (code e) 8191) ≡ leb 5000 (code e))
from_code_lem e n t =
    (from_code-code e, code-from_code n, retry-to_proto_code t, documented_range e)
