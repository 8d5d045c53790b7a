-- ===== src/Prelude/Results.antt =====
-- Python exceptions as values: what a call raises stands in the place of what it returns.

-- The exception classes that the modelled code raises itself or meets in a built-in.
pub data Exception : Type 0 where
  value_error runtime_error page_fault_error translation_error struct_error : Exception
  overflow_error type_error index_error key_error file_not_found not_implemented : Exception

pub data Result {ℓ} (A : Type ℓ) : Type ℓ where
  ok : A → Result A
  raise : Exception → Result A
