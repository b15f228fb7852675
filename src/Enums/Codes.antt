-- ===== src/Enums/Codes.antt =====
-- ErrorCode of include/sysrepo-cpp/Enum.hpp, and its text, by src/Enum.cpp.
use sysrepo_cpp.Base.{ℕ, zero, suc, ◌+◌, ◌/◌, ◌%◌, ◌∷◌, [], ◌++◌, Text, codes, ◌==◌, if◌then◌else◌}

-- Wraps sr_error_t.
pub data ErrorCode : Type 0 where
  ok invalid_argument libyang syscall_failed not_enough_memory not_found item_already_exists
        internal unsupported validation_failed operation_failed unauthorized locked timeout
        callback_failed callback_shelve :
      ErrorCode
  unnamed : ℕ → ErrorCode

unfoldable pub error_code_value : ErrorCode → ℕ
error_code_value ErrorCode.ok = 0
error_code_value ErrorCode.invalid_argument = 1
error_code_value ErrorCode.libyang = 2
error_code_value ErrorCode.syscall_failed = 3
error_code_value ErrorCode.not_enough_memory = 4
error_code_value ErrorCode.not_found = 5
error_code_value ErrorCode.item_already_exists = 6
error_code_value ErrorCode.internal = 7
error_code_value ErrorCode.unsupported = 8
error_code_value ErrorCode.validation_failed = 9
error_code_value ErrorCode.operation_failed = 10
error_code_value ErrorCode.unauthorized = 11
error_code_value ErrorCode.locked = 12
error_code_value ErrorCode.timeout = 13
error_code_value ErrorCode.callback_failed = 14
error_code_value ErrorCode.callback_shelve = 15
error_code_value (ErrorCode.unnamed n) = n

unfoldable pub as_error_code : ℕ → ErrorCode
as_error_code zero = ErrorCode.ok
as_error_code (suc zero) = ErrorCode.invalid_argument
as_error_code (suc (suc zero)) = ErrorCode.libyang
as_error_code (suc (suc (suc zero))) = ErrorCode.syscall_failed
as_error_code (suc (suc (suc (suc zero)))) = ErrorCode.not_enough_memory
as_error_code (suc (suc (suc (suc (suc zero))))) = ErrorCode.not_found
as_error_code (suc (suc (suc (suc (suc (suc zero)))))) = ErrorCode.item_already_exists
as_error_code (suc (suc (suc (suc (suc (suc (suc zero))))))) = ErrorCode.internal
as_error_code (suc (suc (suc (suc (suc (suc (suc (suc zero)))))))) = ErrorCode.unsupported
as_error_code (suc (suc (suc (suc (suc (suc (suc (suc (suc zero))))))))) =
    ErrorCode.validation_failed
as_error_code (suc (suc (suc (suc (suc (suc (suc (suc (suc (suc zero)))))))))) =
    ErrorCode.operation_failed
as_error_code (suc (suc (suc (suc (suc (suc (suc (suc (suc (suc (suc zero))))))))))) =
    ErrorCode.unauthorized
as_error_code (suc (suc (suc (suc (suc (suc (suc (suc (suc (suc (suc (suc zero)))))))))))) =
    ErrorCode.locked
as_error_code (suc (suc (suc (suc (suc (suc (suc (suc (suc (suc (suc (suc (suc zero))))))))))))) =
    ErrorCode.timeout
as_error_code
      (suc (suc (suc (suc (suc (suc (suc (suc (suc (suc (suc (suc (suc (suc zero)))))))))))))) =
    ErrorCode.callback_failed
as_error_code
      (suc
        (suc (suc (suc (suc (suc (suc (suc (suc (suc (suc (suc (suc (suc (suc zero))))))))))))))) =
    ErrorCode.callback_shelve
as_error_code n = ErrorCode.unnamed n

-- std::to_string, the last digit first in the recursion; the fuel counts the digits.
unfoldable pub put_digits : ℕ → ℕ → Text → Text
put_digits zero n rest = rest
put_digits (suc fuel) n rest =
    let longer = put_digits fuel (n / 10) ((48 + n % 10) ∷ rest) in
    if n / 10 == 0 then (48 + n % 10) ∷ rest else longer

-- The fuel n + 1 is more than the digits of n.
unfoldable pub to_string : ℕ → Text
unfolding put_digits
to_string n = put_digits (suc n) n []

unfoldable pub stringify : ErrorCode → Text
unfolding to_string
stringify ErrorCode.ok = codes "SR_ERR_OK"
stringify ErrorCode.invalid_argument = codes "SR_ERR_INVAL_ARG"
stringify ErrorCode.libyang = codes "SR_ERR_LY"
stringify ErrorCode.syscall_failed = codes "SR_ERR_SYS"
stringify ErrorCode.not_enough_memory = codes "SR_ERR_NO_MEMORY"
stringify ErrorCode.not_found = codes "SR_ERR_NOT_FOUND"
stringify ErrorCode.item_already_exists = codes "SR_ERR_EXISTS"
stringify ErrorCode.internal = codes "SR_ERR_INTERNAL"
stringify ErrorCode.unsupported = codes "SR_ERR_UNSUPPORTED"
stringify ErrorCode.validation_failed = codes "SR_ERR_VALIDATION_FAILED"
stringify ErrorCode.operation_failed = codes "SR_ERR_OPERATION_FAILED"
stringify ErrorCode.unauthorized = codes "SR_ERR_UNAUTHORIZED"
stringify ErrorCode.locked = codes "SR_ERR_LOCKED"
stringify ErrorCode.timeout = codes "SR_ERR_TIME_OUT"
stringify ErrorCode.callback_failed = codes "SR_ERR_CALLBACK_FAILED"
stringify ErrorCode.callback_shelve = codes "SR_ERR_CALLBACK_SHELVE"
stringify (ErrorCode.unnamed n) = codes "[unknown error code (" ++ (to_string n ++ codes ")]")
