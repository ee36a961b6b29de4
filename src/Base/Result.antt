-- ===== src/Base/Result.antt =====
-- Exceptions as values.
use Prim.Native.Nat.{ℕ}
use mathlib.Core.Path.{◌≡◌, refl}
use mathlib.Core.Bool.{Bool, true, false}
use tenon_backend.Base.Text.{Text}

-- The exceptions that the modelled code raises. An `HTTPException` and an `ApiError` carry their
-- status code; an `ApiError` its error code too.
pub data Error : Type 0 where
  value_error : Text → Error
  integrity_error : Error
  http_error : ℕ → Error
  api_error : ℕ → Text → Error

-- A call that returns or raises.
pub data Result {ℓ} (Value : Type ℓ) : Type ℓ where
  err : (raised : Error) → Result Value
  ok : (returned : Value) → Result Value

-- `if fails: raise e`
abbrev pub raise_if : Bool → Error → Result (Unit {0})
raise_if false e = ok tt
raise_if true e = err e

infixl 5 ◌>>=◌ ◌>>◌
-- A statement after another one: an exception skips the rest.
abbrev pub ◌>>=◌ {ℓ κ} :
    {X : Type ℓ} {Y : Type κ} (call : Result X) (rest : X → Result Y) → Result Y
err raised >>= rest = err raised
ok x >>= rest = rest x

abbrev pub ◌>>◌ {ℓ} : {Y : Type ℓ} (check : Result (Unit {0})) (rest : Result Y) → Result Y
check >> rest = check >>= (λ _. rest)

-- A block that returned: its first call returned, and so did the rest on that value.
pub >>=-ok {ℓ κ} :
    {X : Type ℓ} {Y : Type κ} {y : Y} (call : Result X) (rest : X → Result Y)
    → (call >>= rest) ≡ ok y
    → (x : X) × (call ≡ ok x) × (rest x ≡ ok y)
>>=-ok (err raised) rest returned = cc
>>=-ok (ok x) rest returned = (x, refl, returned)
