-- ===== src/Core/Result.antt =====
-- include/rtmp_server/core/result.hpp: a value or an error.
use rtmp_core.Base.{Bool, if◌then◌else◌}
use rtmp_core.Core.Error.{Error}

pub data Result {ℓ} (T : Type ℓ) : Type ℓ where
  err : Error → Result T
  ok : T → Result T

-- `Result<void>`: a check that the code goes on after, or returns the error of.
abbrev pub guard : Bool → Error → Result (Unit {0})
guard passed error = if passed then ok tt else err error

infixl 5 ◌>>◌
abbrev pub ◌>>◌ {ℓ} : {T : Type ℓ} → Result (Unit {0}) → Result T → Result T
err error >> next = err error
ok _ >> next = next

-- `if (!r) return r.error();`
infixl 5 ◌>>=◌
abbrev pub ◌>>=◌ {ℓ κ} : {T : Type ℓ} {U : Type κ} → Result T → (T → Result U) → Result U
err error >>= next = err error
ok value >>= next = next value
