-- ===== src/Errors/Codes.antt =====
-- crates/laplace-interfaces/src/error/codes.rs: the error codes that cross to TypeScript.
use laplace.Prelude.{ℕ, String, Bool, true, false, ◌==◌, if◌then◌else◌}

pub data LaplaceError : Type 0 where
  success internal invalid_context abi_mismatch memory_alignment invalid_pointer timeout
        kernel_timeout sdk_timeout lock_timeout quota_exceeded out_of_memory cpu_quota_exceeded
        concurrency_limit_exceeded pool_exhausted handshake_failed invalid_request version_mismatch
        tenant_not_found unauthorized network_error connection_failed serialization_error
        verification_error isolate_pool_error scheduler_error :
      LaplaceError

-- `as u32`, the discriminants.
unfoldable pub code : LaplaceError → ℕ
code success = 0
code internal = 1000
code invalid_context = 1001
code abi_mismatch = 1002
code memory_alignment = 1003
code invalid_pointer = 1004
code timeout = 2000
code kernel_timeout = 2001
code sdk_timeout = 2002
code lock_timeout = 2003
code quota_exceeded = 3000
code out_of_memory = 3001
code cpu_quota_exceeded = 3002
code concurrency_limit_exceeded = 3003
code pool_exhausted = 3004
code handshake_failed = 4000
code invalid_request = 4001
code version_mismatch = 4002
code tenant_not_found = 4003
code unauthorized = 4004
code network_error = 5000
code connection_failed = 5001
code serialization_error = 5002
code verification_error = 6000
code isolate_pool_error = 6001
code scheduler_error = 6002

unfoldable pub from_code : ℕ → LaplaceError
from_code code =
    if code == 0
    then success
    else if code == 1000
    then internal
    else if code == 1001
    then invalid_context
    else if code == 1002
    then abi_mismatch
    else if code == 1003
    then memory_alignment
    else if code == 1004
    then invalid_pointer
    else if code == 2000
    then timeout
    else if code == 2001
    then kernel_timeout
    else if code == 2002
    then sdk_timeout
    else if code == 2003
    then lock_timeout
    else if code == 3000
    then quota_exceeded
    else if code == 3001
    then out_of_memory
    else if code == 3002
    then cpu_quota_exceeded
    else if code == 3003
    then concurrency_limit_exceeded
    else if code == 3004
    then pool_exhausted
    else if code == 4000
    then handshake_failed
    else if code == 4001
    then invalid_request
    else if code == 4002
    then version_mismatch
    else if code == 4003
    then tenant_not_found
    else if code == 4004
    then unauthorized
    else if code == 5000
    then network_error
    else if code == 5001
    then connection_failed
    else if code == 5002
    then serialization_error
    else if code == 6000
    then verification_error
    else if code == 6001
    then isolate_pool_error
    else if code == 6002
    then scheduler_error
    else internal

unfoldable pub message : LaplaceError → String
message success = "Success"
message internal = "Internal error"
message invalid_context = "Invalid context"
message abi_mismatch = "ABI version mismatch"
message memory_alignment = "Memory alignment violation"
message invalid_pointer = "Invalid pointer"
message timeout = "Operation timeout"
message kernel_timeout = "Kernel operation timeout"
message sdk_timeout = "SDK operation timeout"
message lock_timeout = "Lock acquisition timeout"
message quota_exceeded = "Resource quota exceeded"
message out_of_memory = "Out of memory"
message cpu_quota_exceeded = "CPU quota exceeded"
message concurrency_limit_exceeded = "Concurrency limit exceeded"
message pool_exhausted = "Connection pool exhausted"
message handshake_failed = "Handshake failed"
message invalid_request = "Invalid request"
message version_mismatch = "Version mismatch"
message tenant_not_found = "Tenant not found"
message unauthorized = "Unauthorized"
message network_error = "Network error"
message connection_failed = "Connection failed"
message serialization_error = "Serialization error"
message verification_error = "Verification error"
message isolate_pool_error = "Isolate pool error"
message scheduler_error = "Scheduler error"

unfoldable pub is_retryable : LaplaceError → Bool
is_retryable timeout = true
is_retryable kernel_timeout = true
is_retryable sdk_timeout = true
is_retryable lock_timeout = true
is_retryable network_error = true
is_retryable connection_failed = true
is_retryable pool_exhausted = true
is_retryable _ = false

unfoldable pub is_resource_error : LaplaceError → Bool
is_resource_error quota_exceeded = true
is_resource_error out_of_memory = true
is_resource_error cpu_quota_exceeded = true
is_resource_error concurrency_limit_exceeded = true
is_resource_error pool_exhausted = true
is_resource_error _ = false
