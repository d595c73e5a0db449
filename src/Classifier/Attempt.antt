-- ===== src/Classifier/Attempt.antt =====
-- The `None => return Ok(())` of crates/tls-probe-ebpf/src/tls.rs: a packet that a read or a test
-- fails on is left alone.
use tls_probe.Prelude.{Bool, true, false, Option, none, some}

infixl 5 ◌>>=◌ ◌>>◌
abbrev pub ◌>>=◌ {ℓ κ} : {A : Type ℓ} {B : Type κ} → Option A → (A → Option B) → Option B
none >>= f = none
some a >>= f = f a

abbrev pub ◌>>◌ {ℓ} : {B : Type ℓ} → Option (Unit {0}) → Option B → Option B
m >> k = m >>= λ _. k

-- `if !test { return Ok(()) }`
abbrev pub require : Bool → Option (Unit {0})
require true = some tt
require false = none
