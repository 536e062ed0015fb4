-- ===== src/Base/Result.antt =====
-- A result or an error, and the first error of a sequence of checks.
use mathlib.Core.Path.{◌≡◌, refl}
use mathlib.Core.Bool.{Bool, true, false}

pub data Result {ℓ κ} (E : Type ℓ) (A : Type κ) : Type (ℓ ⊔ κ) where
  ok : A → Result E A
  err : E → Result E A

-- The value of a success goes on; `continue` is not looked at after an error.
abbrev pub and_then {ℓ κ μ} :
    {E : Type ℓ} {A : Type κ} {B : Type μ} → (A → Result E B) → Result E A → Result E B
and_then continue (err failure) = err failure
and_then continue (ok value) = continue value

infixl 5 ◌>>◌ ◌>>=◌
abbrev pub ◌>>=◌ {ℓ κ μ} :
    {E : Type ℓ} {A : Type κ} {B : Type μ} → Result E A → (A → Result E B) → Result E B
first >>= continue = and_then continue first

abbrev pub ◌>>◌ {ℓ κ} : {E : Type ℓ} {B : Type κ} → Result E (Unit {0}) → Result E B → Result E B
check >> rest = and_then (λ _. rest) check

-- `if bad { return err }`
abbrev pub fail_if {ℓ} : {E : Type ℓ} → Bool → E → Result E (Unit {0})
fail_if false failure = ok tt
fail_if true failure = err failure

-- What succeeds as a whole succeeded in its first part, and then in the rest.
pub >>=-eq-ok {ℓ κ μ} :
    {E : Type ℓ} {S : Type κ} {T : Type μ} (first : Result E S) (continue : S → Result E T)
    {last : T}
    → (first >>= continue) ≡ ok last
    → (value : S) × (first ≡ ok value) × (continue value ≡ ok last)
>>=-eq-ok (err failure) continue whole = cc
>>=-eq-ok (ok value) continue whole = (value, refl, whole)

pub fail_if-eq-ok {ℓ} :
    {E : Type ℓ} {b : Bool} (e : E) {u : Unit {0}} → fail_if b e ≡ ok u → b ≡ false
fail_if-eq-ok {b = true} e h = cc
fail_if-eq-ok {b = false} e h = refl
