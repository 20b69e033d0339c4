-- ===== src/Prelude/Outcome.antt =====
-- Python's exceptions as values: what a call returns, or what it raises.
use eous.Prelude.{◌≡◌, refl, ◌⊎◌, inl, inr, Bool, true, false, subst}

pub data Outcome {ℓ κ} (E : Type ℓ) (A : Type κ) : Type (ℓ ⊔ κ) where
  ok : A → Outcome E A
  raise : E → Outcome E A

infixl 5 ◌>>=◌ ◌>>◌
abbrev pub ◌>>=◌ {ℓ κ μ} :
    {E : Type ℓ} {A : Type κ} {B : Type μ} → Outcome E A → (A → Outcome E B) → Outcome E B
ok a >>= f = f a
raise e >>= f = raise e

abbrev pub ◌>>◌ {ℓ μ} : {E : Type ℓ} {B : Type μ} → Outcome E (Unit {0}) → Outcome E B → Outcome E B
m >> k = m >>= λ _. k

-- `if failed: raise e`
abbrev pub raise_if {ℓ} : {E : Type ℓ} → Bool → E → Outcome E (Unit {0})
raise_if true e = raise e
raise_if false e = ok tt

-- To split on a computed outcome and keep the equation.
pub Outcome-cases {ℓ κ} :
    {E : Type ℓ} {A : Type κ} (o : Outcome E A) → ((a : A) × (o ≡ ok a)) ⊎ ((e : E) × (o ≡ raise e))
Outcome-cases (ok a) = inl (a, refl)
Outcome-cases (raise e) = inr (e, refl)

-- Inversion of a chain that returned.
pub >>=-eq-ok {ℓ κ μ} :
    {E : Type ℓ} {A : Type κ} {B : Type μ} {b : B} (first : Outcome E A) (next : A → Outcome E B)
    → (first >>= next) ≡ ok b
    → (a : A) × (first ≡ ok a) × (next a ≡ ok b)
>>=-eq-ok (ok a) next returned = (a, refl, returned)
>>=-eq-ok (raise e) next returned = cc

pub >>=-eq-raise {ℓ κ μ} :
    {E : Type ℓ} {A : Type κ} {B : Type μ} {e : E} (first : Outcome E A) (next : A → Outcome E B)
    → (first >>= next) ≡ raise e
    → (first ≡ raise e) ⊎ ((a : A) × (first ≡ ok a) × (next a ≡ raise e))
>>=-eq-raise (ok a) next raised = inr (a, refl, raised)
>>=-eq-raise (raise e) next raised = inl cc

pub ok-injective {ℓ κ} :
    {E : Type ℓ} {A : Type κ} {a b : A} → ◌≡◌ {A = Outcome E A} (ok a) (ok b) → a ≡ b
ok-injective h = cc

-- What does not raise returns.
pub returns_of_no_raise {ℓ κ} :
    {E : Type ℓ} {A : Type κ} (o : Outcome E A) → ((e : E) → o ≡ raise e → ⊥) → (a : A) × (o ≡ ok a)
returns_of_no_raise (ok a) h = (a, refl)
returns_of_no_raise (raise e) h = absurd (h e refl)

-- What holds of the result, if there is one.
abbrev pub Ensures {ℓ κ μ} : {E : Type ℓ} {A : Type κ} → (A → Type μ) → Outcome E A → Type μ
Ensures P (ok a) = P a
Ensures P (raise e) = Unit

pub Ensures->>= {ℓ κ μ ν ξ} :
    {E : Type ℓ} {A : Type κ} {B : Type μ} (P : A → Type ν) (Q : B → Type ξ) (m : Outcome E A)
    (f : A → Outcome E B)
    → Ensures P m
    → ((a : A) → P a → Ensures Q (f a))
    → Ensures Q (m >>= f)
Ensures->>= P Q (ok a) f h k = k a h
Ensures->>= P Q (raise e) f h k = tt

pub Ensures-ok {ℓ κ μ} :
    {E : Type ℓ} {A : Type κ} (P : A → Type μ) (m : Outcome E A) (a : A)
    → Ensures P m
    → m ≡ ok a
    → P a
Ensures-ok P (ok b) a h e = subst P (ok-injective e) h
Ensures-ok P (raise x) a h e = cc

-- Every outcome ensures what holds always.
Ensures-any {ℓ κ μ} :
    {E : Type ℓ} {A : Type κ} (P : A → Type μ) (m : Outcome E A) → ((a : A) → P a) → Ensures P m
Ensures-any P (ok a) h = h a
Ensures-any P (raise e) h = tt

-- A chain whose last part ensures it, whatever the first part returns.
pub Ensures-then {ℓ κ μ ξ} :
    {E : Type ℓ} {A : Type κ} {B : Type μ} (Q : B → Type ξ) (m : Outcome E A) (f : A → Outcome E B)
    → ((a : A) → Ensures Q (f a))
    → Ensures Q (m >>= f)
Ensures-then Q (ok a) f k = k a
Ensures-then Q (raise e) f k = tt

-- To prove it of the result with the equation at hand.
pub Ensures-intro {ℓ κ μ} :
    {E : Type ℓ} {A : Type κ} (P : A → Type μ) (m : Outcome E A)
    → ((a : A) → m ≡ ok a → P a)
    → Ensures P m
Ensures-intro P (ok a) h = h a refl
Ensures-intro P (raise e) h = tt
