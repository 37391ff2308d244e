-- ===== src/Python/Result.antt =====
-- A call that may raise. An exception keeps its class and drops its message.
use suplalite.Common.{Bool, true, false}

pub data Error : Type 0 where
  assertion_error value_error type_error key_error index_error attribute_error : Error
  unicode_error runtime_error network_error device_error : Error

-- The outcome of a call: what it returns, or what it raises.
pub data Result {κ} (T : Type κ) : Type κ where
  ok : (returned : T) → Result T
  err : (raised : Error) → Result T

-- The calls that follow are not made once one has raised.
infixl 5 ◌>>◌ ◌>>=◌
abbrev pub ◌>>=◌ {κ ν} : {T : Type κ} {S : Type ν} (call : Result T) → (T → Result S) → Result S
(ok x) >>= next = next x
(err raised) >>= next = err raised

abbrev pub ◌>>◌ {ν} : {S : Type ν} (check : Result (Unit {0})) → Result S → Result S
check >> next = check >>= λ done. next

-- `assert b`
abbrev pub assert : Bool → Result (Unit {0})
assert true = ok tt
assert false = err assertion_error
