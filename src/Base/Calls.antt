-- ===== src/Base/Calls.antt =====
-- What becomes of a call: it returns, it ends by an exception that nothing catches, or it is still
-- in progress when the scripted results of its system calls are used up.
use mathlib.Core.Path.{◌≡◌, refl, subst}

pub data Outcome {ℓ} (A : Type ℓ) : Type ℓ where
  returns : A → Outcome A
  throws : Outcome A
  waits : Outcome A

infixl 5 ◌>>=◌
abbrev pub ◌>>=◌ {ℓ κ} : {A : Type ℓ} {B : Type κ} → Outcome A → (A → Outcome B) → Outcome B
returns a >>= f = f a
throws >>= f = throws
waits >>= f = waits

-- The laws of the sequence of calls.
pub >>=-congr {ℓ κ} :
    {A : Type ℓ} {B : Type κ} (m : Outcome A) {f g : A → Outcome B}
    → ((a : A) → f a ≡ g a)
    → (m >>= f) ≡ (m >>= g)
>>=-congr (returns a) h = h a
>>=-congr throws h = refl
>>=-congr waits h = refl

pub >>=-assoc {ℓ κ μ} :
    {A : Type ℓ} {B : Type κ} {C : Type μ} (m : Outcome A) (f : A → Outcome B) (g : B → Outcome C)
    → (m >>= f >>= g) ≡ (m >>= λ a. f a >>= g)
>>=-assoc (returns a) f g = refl
>>=-assoc throws f g = refl
>>=-assoc waits f g = refl

-- The call throws nothing, and what it returns has the property.
abbrev pub Safely {ℓ} : {A : Type ℓ} → (A → Type 0) → Outcome A → Type 0
Safely P (returns a) = P a
Safely P throws = ⊥
Safely P waits = Unit

pub Safely-bind {ℓ κ} :
    {A : Type ℓ} {B : Type κ} (P : A → Type 0) (Q : B → Type 0) (m : Outcome A) (f : A → Outcome B)
    → Safely P m
    → ((a : A) → P a → Safely Q (f a))
    → Safely Q (m >>= f)
Safely-bind P Q (returns a) f h k = k a h
Safely-bind P Q throws f h k = absurd h
Safely-bind P Q waits f h k = tt

pub Safely-mono {ℓ} :
    {A : Type ℓ} (P Q : A → Type 0) (m : Outcome A)
    → ((a : A) → P a → Q a)
    → Safely P m
    → Safely Q m
Safely-mono P Q (returns a) f h = f a h
Safely-mono P Q throws f h = absurd h
Safely-mono P Q waits f h = tt

-- The call returns, and what it returns has the property.
abbrev pub Returns {ℓ} : {A : Type ℓ} → (A → Type 0) → Outcome A → Type 0
Returns P (returns a) = P a
Returns P throws = ⊥
Returns P waits = ⊥

pub Returns-bind {ℓ κ} :
    {A : Type ℓ} {B : Type κ} (P : A → Type 0) (Q : B → Type 0) (m : Outcome A) (f : A → Outcome B)
    → Returns P m
    → ((a : A) → P a → Returns Q (f a))
    → Returns Q (m >>= f)
Returns-bind P Q (returns a) f h k = k a h
Returns-bind P Q throws f h k = absurd h
Returns-bind P Q waits f h k = absurd h

pub Returns-Safely {ℓ} : {A : Type ℓ} (P : A → Type 0) (m : Outcome A) → Returns P m → Safely P m
Returns-Safely P (returns a) h = h
Returns-Safely P throws h = absurd h
Returns-Safely P waits h = absurd h

pub Returns-mono {ℓ} :
    {A : Type ℓ} (P Q : A → Type 0) (m : Outcome A)
    → ((a : A) → P a → Q a)
    → Returns P m
    → Returns Q m
Returns-mono P Q (returns a) f h = f a h
Returns-mono P Q throws f h = absurd h
Returns-mono P Q waits f h = absurd h

-- What holds of the value that a call returns holds of the value.
pub Returns-at {ℓ} :
    {A : Type ℓ} (P : A → Type 0) {m : Outcome A} {a : A} → Returns P m → m ≡ returns a → P a
Returns-at P h e = subst (Returns P) e h

-- What the call returns, if it returns, has the property.
abbrev pub Yields {ℓ} : {A : Type ℓ} → (A → Type 0) → Outcome A → Type 0
Yields P (returns a) = P a
Yields P throws = Unit
Yields P waits = Unit

pub Yields-bind {ℓ κ} :
    {A : Type ℓ} {B : Type κ} (P : A → Type 0) (Q : B → Type 0) (m : Outcome A) (f : A → Outcome B)
    → Yields P m
    → ((a : A) → P a → Yields Q (f a))
    → Yields Q (m >>= f)
Yields-bind P Q (returns a) f h k = k a h
Yields-bind P Q throws f h k = tt
Yields-bind P Q waits f h k = tt

pub Safely-Yields {ℓ} : {A : Type ℓ} (P : A → Type 0) (m : Outcome A) → Safely P m → Yields P m
Safely-Yields P (returns a) h = h
Safely-Yields P throws h = absurd h
Safely-Yields P waits h = tt

pub Yields-at {ℓ} :
    {A : Type ℓ} (P : A → Type 0) {m : Outcome A} {a : A} → Yields P m → m ≡ returns a → P a
Yields-at P h e = subst (Yields P) e h

pub Yields-any {ℓ} : {A : Type ℓ} (m : Outcome A) → Yields (λ (a : A). Unit {0}) m
Yields-any (returns a) = tt
Yields-any throws = tt
Yields-any waits = tt

-- What a call returns is what it returns.
pub Yields-self : {A : Type 0} (m : Outcome A) → Yields (λ a. m ≡ returns a) m
Yields-self (returns a) = refl
Yields-self throws = tt
Yields-self waits = tt
