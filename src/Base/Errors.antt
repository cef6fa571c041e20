-- ===== src/Base/Errors.antt =====
-- `(value, error)` results, for a type of errors of the model's own.

pub data Result (E A : Type 0) : Type 0 where
  ok : A → Result E A
  err : E → Result E A
