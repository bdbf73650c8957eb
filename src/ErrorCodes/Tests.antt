-- ===== src/ErrorCodes/Tests.antt =====
-- The law of the error codes at one code.
use katapult.Base.{◌≡◌, refl}
use katapult.ErrorCodes.{file_read_error}
use katapult.ErrorCodes.Laws.{code_text-injective}

code_text-injective_example : file_read_error ≡ file_read_error
code_text-injective_example = code_text-injective file_read_error file_read_error refl
