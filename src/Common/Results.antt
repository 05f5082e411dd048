-- ===== src/Common/Results.antt =====
-- Results with an error, and their chaining by do blocks.
use mathlib.Core.Path.{◌≡◌, refl, ap}
use mathlib.Core.Bool.{Bool, true, false}
use mathlib.Core.Option.{Option, none, some}

pub data Result {ℓ} (E : Type 0) (A : Type ℓ) : Type ℓ where
  err : E → Result E A
  ok : A → Result E A

abbrev pub require {ℓ} : {E : Type 0} {A : Type ℓ} → Option A → E → Result E A
require (some a) e = ok a
require none e = err e

-- `if (!condition) throw reason;`
abbrev pub guard : {E : Type 0} → Bool → E → Result E (Unit {0})
guard false reason = err reason
guard true reason = ok tt

infixl 5 ◌>>◌ ◌>>=◌
abbrev pub ◌>>=◌ {ℓ κ} :
    {E : Type 0} {A : Type ℓ} {B : Type κ} → Result E A → (A → Result E B) → Result E B
err reason >>= next = err reason
ok x >>= next = next x

pub ok-injective {ℓ} :
    {E : Type 0} {A : Type ℓ} {a b : A} → ◌≡◌ {A = Result E A} (ok a) (ok b) → a ≡ b
ok-injective {a} e = ap (λ r. elim r [ ok x ↦ x | err _ ↦ a ]) e

abbrev pub ◌>>◌ {ℓ} : {E : Type 0} {B : Type ℓ} → Result E (Unit {0}) → Result E B → Result E B
first >> next = first >>= λ _. next

-- A test that has passed was true.
pub guard-eq-ok :
    {E : Type 0} (b : Bool) (reason : E) {u : Unit {0}} → guard b reason ≡ ok u → b ≡ true
guard-eq-ok false reason h = absurd (cc)
guard-eq-ok true reason h = refl

-- What a required option gives was there.
pub require-eq-ok {ℓ} :
    {E : Type 0} {A : Type ℓ} (o : Option A) (reason : E) {x : A}
    → require o reason ≡ ok x
    → o ≡ some x
require-eq-ok (some a) reason h = ap some (ok-injective h)
require-eq-ok none reason h = absurd (cc)

-- Where a chain succeeds, both of its parts do.
pub >>=-eq-ok {ℓ κ} :
    {E : Type 0} {A : Type ℓ} {B : Type κ} (first : Result E A) (next : A → Result E B) {b : B}
    → (first >>= next) ≡ ok b
    → (a : A) × (first ≡ ok a) × (next a ≡ ok b)
>>=-eq-ok (err reason) next h = absurd (cc)
>>=-eq-ok (ok x) next h = (x, refl, h)
