-- ===== src/Enums/Names.antt =====
-- The text of an error code identifies the code.
use sysrepo_cpp.Base.{
  ℕ, zero, suc, ◌≡◌, refl, ap, List, [], ◌∷◌, Option, none, some, Text, text_eq, if◌then◌else◌, sym,
  ◌∙◌,
}
use sysrepo_cpp.Enums.Codes.{ErrorCode, stringify}
use sysrepo_cpp.Enums.Digits.{read_digits, read_digits-to_string}

-- The named codes with their texts.
abbrev named_codes : List ErrorCode
named_codes =
    ErrorCode.ok ∷ ErrorCode.invalid_argument ∷ ErrorCode.libyang ∷ ErrorCode.syscall_failed
    ∷ ErrorCode.not_enough_memory ∷ ErrorCode.not_found ∷ ErrorCode.item_already_exists
    ∷ ErrorCode.internal ∷ ErrorCode.unsupported ∷ ErrorCode.validation_failed
    ∷ ErrorCode.operation_failed ∷ ErrorCode.unauthorized ∷ ErrorCode.locked ∷ ErrorCode.timeout
    ∷ ErrorCode.callback_failed ∷ ErrorCode.callback_shelve ∷ []

find_named : Text → List ErrorCode → Option ErrorCode
find_named s [] = none
find_named s (c ∷ cs) = if text_eq (stringify c) s then some c else find_named s cs

drop_chars : ℕ → Text → Text
drop_chars zero s = s
drop_chars (suc n) [] = []
drop_chars (suc n) (c ∷ s) = drop_chars n s

-- A reader of the texts: a named code, or the number in "[unknown error code (n)]".
read_code : Text → ErrorCode
read_code s = elim (find_named s named_codes) [
  | none ↦ ErrorCode.unnamed (read_digits 0 (drop_chars 21 s))
  | some c ↦ c
]

read_code-stringify : (c : ErrorCode) → read_code (stringify c) ≡ c
unfolding read_code find_named stringify drop_chars
read_code-stringify ErrorCode.ok = refl
read_code-stringify ErrorCode.invalid_argument = refl
read_code-stringify ErrorCode.libyang = refl
read_code-stringify ErrorCode.syscall_failed = refl
read_code-stringify ErrorCode.not_enough_memory = refl
read_code-stringify ErrorCode.not_found = refl
read_code-stringify ErrorCode.item_already_exists = refl
read_code-stringify ErrorCode.internal = refl
read_code-stringify ErrorCode.unsupported = refl
read_code-stringify ErrorCode.validation_failed = refl
read_code-stringify ErrorCode.operation_failed = refl
read_code-stringify ErrorCode.unauthorized = refl
read_code-stringify ErrorCode.locked = refl
read_code-stringify ErrorCode.timeout = refl
read_code-stringify ErrorCode.callback_failed = refl
read_code-stringify ErrorCode.callback_shelve = refl
read_code-stringify (ErrorCode.unnamed n) =
    ap ErrorCode.unnamed (read_digits-to_string n 41 (93 ∷ []) refl)

-- Two error codes with the same text are the same code, whether it is named or not.
pub stringify_injective : (c d : ErrorCode) → stringify c ≡ stringify d → c ≡ d
stringify_injective c d h = sym (read_code-stringify c) ∙ (ap read_code h ∙ read_code-stringify d)
