-- ===== src/Outcome.antt =====
-- What a call of the parser can end in, and the rule for chains of calls.
use tls_probe.Prelude.{ℕ, ◌≡◌, refl, Bool, true, false}

-- `ParseError`
pub data ParseError : Type 0 where
  too_short : ParseError
  invalid_record : ParseError
  invalid_handshake_type : ParseError
  unexpected_end : ℕ → ParseError

-- `panic` is an index out of range, `spin` a loop that has used up its fuel.
pub data Outcome {ℓ} (A : Type ℓ) : Type ℓ where
  ok : A → Outcome A
  err : ParseError → Outcome A
  panic : Outcome A
  spin : Outcome A

infixl 5 ◌>>=◌ ◌>>◌
abbrev pub ◌>>=◌ {ℓ κ} : {A : Type ℓ} {B : Type κ} → Outcome A → (A → Outcome B) → Outcome B
ok a >>= f = f a
err e >>= f = err e
panic >>= f = panic
spin >>= f = spin

abbrev pub ◌>>◌ {ℓ} : {B : Type ℓ} → Outcome (Unit {0}) → Outcome B → Outcome B
m >> k = m >>= λ _. k

-- `if !test { return Err(e) }`
abbrev pub guard : Bool → ParseError → Outcome (Unit {0})
guard true e = ok tt
guard false e = err e

-- The call ends with a value for which `P` holds, or with an error of the parser: it never
-- panics and its loops end.
abbrev pub Within : {A : Type 0} → (A → Type 0) → Outcome A → Type 0
Within P (ok a) = P a
Within P (err e) = Unit
Within P panic = ⊥
Within P spin = ⊥

-- The call ends with a value for which `P` holds.
abbrev pub Returns : {A : Type 0} → (A → Type 0) → Outcome A → Type 0
Returns P (ok a) = P a
Returns P (err e) = ⊥
Returns P panic = ⊥
Returns P spin = ⊥

pub Within->>= :
    {A B : Type 0} (P : A → Type 0) (Q : B → Type 0) (m : Outcome A) (f : A → Outcome B)
    → Within P m
    → ((a : A) → P a → Within Q (f a))
    → Within Q (m >>= f)
Within->>= P Q (ok a) f h k = k a h
Within->>= P Q (err e) f h k = tt
Within->>= P Q panic f h k = absurd h
Within->>= P Q spin f h k = absurd h

pub Returns->>= :
    {A B : Type 0} (P : A → Type 0) (Q : B → Type 0) (m : Outcome A) (f : A → Outcome B)
    → Returns P m
    → ((a : A) → P a → Returns Q (f a))
    → Returns Q (m >>= f)
Returns->>= P Q (ok a) f h k = k a h
Returns->>= P Q (err e) f h k = absurd h
Returns->>= P Q panic f h k = absurd h
Returns->>= P Q spin f h k = absurd h

-- A weaker claim of the same call.
pub Returns-map :
    {A : Type 0} (P Q : A → Type 0) (m : Outcome A)
    → Returns P m
    → ((a : A) → P a → Q a)
    → Returns Q m
Returns-map P Q (ok a) h k = k a h
Returns-map P Q (err e) h k = h
Returns-map P Q panic h k = h
Returns-map P Q spin h k = h

pub Returns-ok :
    {A : Type 0} (P : A → Type 0) (m : Outcome A) (a : A) → m ≡ ok a → P a → Returns P m
Returns-ok P m a e p = rw e p

pub Returns-Within : {A : Type 0} (P : A → Type 0) (m : Outcome A) → Returns P m → Within P m
Returns-Within P (ok a) h = h
Returns-Within P (err e) h = tt
Returns-Within P panic h = h
Returns-Within P spin h = h

pub Returns-value :
    {A : Type 0} (P : A → Type 0) (m : Outcome A) → Returns P m → (a : A) × (m ≡ ok a) × P a
Returns-value P (ok a) h = (a, refl, h)
Returns-value P (err e) h = absurd h
Returns-value P panic h = absurd h
Returns-value P spin h = absurd h

-- After a guard the test may be used.
pub Within-guard :
    {B : Type 0} (Q : B → Type 0) (b : Bool) (e : ParseError) (k : Outcome B)
    → (b ≡ true → Within Q k)
    → Within Q (guard b e >> k)
Within-guard Q true e k h = h refl
Within-guard Q false e k h = tt
