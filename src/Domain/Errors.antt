-- ===== src/Domain/Errors.antt =====
-- src/domain/errors/domain-errors.ts. `fault` is any other exception: a violated constraint, or
-- a field read of an undefined row.
use Prim.Native.String.{String}
use backend_java_spring_boot.Prelude.{ℕ}

pub data Error : Type 0 where
  not_found conflict forbidden validation auth : String → Error
  rate_limit : ℕ → Error
  fault : Error

pub data Result (A : Type 0) : Type 0 where
  ok : A → Result A
  err : Error → Result A
