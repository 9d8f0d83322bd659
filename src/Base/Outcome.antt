-- ===== src/Base/Outcome.antt =====
-- A call that gives a value, or stops with an error of type `E`; chains of such calls, and what a
-- chain that succeeded says of its parts.
use mathlib.Core.Path.{◌≡◌, refl}
use mathlib.Core.Logic.{◌⊎◌, inl, inr}
use mathlib.Core.Bool.{Bool, true, false}

pub data Result {ε ℓ} (E : Type ε) (A : Type ℓ) : Type (ε ⊔ ℓ) where
  err : E → Result E A
  ok : A → Result E A

infixl 5 ◌>>=◌ ◌>>◌
abbrev pub ◌>>=◌ {ε ℓ κ} :
    {E : Type ε} {A : Type ℓ} {B : Type κ} → Result E A → (A → Result E B) → Result E B
call >>= next = elim call [ err e ↦ err e | ok a ↦ next a ]

abbrev pub ◌>>◌ {ε κ} : {E : Type ε} {B : Type κ} → Result E (Unit {0}) → Result E B → Result E B
test >> rest = elim test [ err e ↦ err e | ok _ ↦ rest ]

-- `if (!test) return error;`
abbrev pub guard {ε} : {E : Type ε} → Bool → E → Result E (Unit {0})
guard test e = elim test [ false ↦ err e | true ↦ ok tt ]

-- What a chain that succeeded says of its first call and of the rest.
pub >>=-eq-ok {ε ℓ κ} :
    {E : Type ε} {A : Type ℓ} {B : Type κ} (call : Result E A) (next : A → Result E B) {out : B}
    → (call >>= next) ≡ ok out
    → (value : A) × (call ≡ ok value) × (next value ≡ ok out)
>>=-eq-ok (err e) next h = cc
>>=-eq-ok (ok value) next h = (value, refl, h)

-- A guarded call that succeeded has passed its test.
pub guard->>-eq-ok {ε ℓ} :
    {E : Type ε} {A : Type ℓ} (test : Bool) (e : E) (rest : Result E A) {out : A}
    → (guard test e >> rest) ≡ ok out
    → (test ≡ true) × (rest ≡ ok out)
guard->>-eq-ok false e rest h = cc
guard->>-eq-ok true e rest h = (refl, h)

-- A call without a value that succeeded, and the rest of its chain.
pub >>-eq-ok {ε ℓ} :
    {E : Type ε} {A : Type ℓ} (call : Result E (Unit {0})) (rest : Result E A) {out : A}
    → (call >> rest) ≡ ok out
    → (call ≡ ok tt) × (rest ≡ ok out)
>>-eq-ok (err e) rest h = cc
>>-eq-ok (ok _) rest h = (refl, h)

pub Result-cases {ε ℓ} :
    {E : Type ε} {A : Type ℓ} (r : Result E A) → ((e : E) × (r ≡ err e)) ⊎ ((a : A) × (r ≡ ok a))
Result-cases (err e) = inl (e, refl)
Result-cases (ok a) = inr (a, refl)

pub ok-injective {ε ℓ} :
    {E : Type ε} {A : Type ℓ} {a b : A} → Path (Result E A) (ok a) (ok b) → a ≡ b
ok-injective h = cc
