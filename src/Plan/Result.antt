-- ===== src/Plan/Result.antt =====
-- What a function of the plan engine gives back: a value, a `CleanupPlanError` with its code, or
-- the `ValueError` that a constructor's `__post_init__` raises.
use mailcleanup.Prelude.{Bool, true, false, List, [], ◌∷◌, ◌≡◌, refl}

pub data ErrorCode : Type 0 where
  invalid_request target_not_found map_revision_conflict policy_revision_conflict : ErrorCode
  plan_revision_conflict invalid_transition plan_expired plan_too_large : ErrorCode
  unsupported_target invalid_filter study_unavailable account_unavailable : ErrorCode

pub data Result {ℓ} (V : Type ℓ) : Type ℓ where
  value_error : Result V
  err : ErrorCode → Result V
  ok : V → Result V

-- What follows a call that may raise: the first exception is the outcome.
infixl 5 ◌>>=◌ ◌>>◌
abbrev pub ◌>>=◌ {ℓ ℓ'} : {V : Type ℓ} {W : Type ℓ'} → Result V → (V → Result W) → Result W
value_error >>= next = value_error
err code >>= next = err code
ok v >>= next = next v

-- A call made for its exceptions alone.
abbrev pub ◌>>◌ {ℓ} : {W : Type ℓ} → Result (Unit {0}) → Result W → Result W
first >> second = first >>= λ _. second

-- `if not test: raise CleanupPlanError(code)`
abbrev pub require : Bool → ErrorCode → Result (Unit {0})
require false code = err code
require true code = ok tt

-- `if not test: raise ValueError`
abbrev pub check : Bool → Result (Unit {0})
check true = ok tt
check false = value_error

unfoldable pub traverse : {A B : Type 0} → (A → Result B) → List A → Result (List B)
traverse f [] = ok []
traverse f (x ∷ xs) = do y ← f x; ys ← traverse f xs; ok (y ∷ ys)

-- A chain that gives a value went on from a value of its first call.
pub >>=-eq-ok {ℓ ℓ'} :
    {V : Type ℓ} {W : Type ℓ'} {w : W} (first : Result V) (next : V → Result W)
    → (first >>= next) ≡ ok w
    → (v : V) × (first ≡ ok v) × (next v ≡ ok w)
>>=-eq-ok value_error next e = cc
>>=-eq-ok (err code) next e = cc
>>=-eq-ok (ok v) next e = (v, refl, e)

pub require-eq-ok {ℓ} :
    {B : Type ℓ} (t : Bool) (e : ErrorCode) (m : Result B) {b : B}
    → (require t e >> m) ≡ ok b
    → (t ≡ true) × (m ≡ ok b)
require-eq-ok true e m h = (refl, h)
require-eq-ok false e m h = cc

pub check-eq-ok {ℓ} :
    {B : Type ℓ} (t : Bool) (m : Result B) {b : B} → (check t >> m) ≡ ok b → (t ≡ true) × (m ≡ ok b)
check-eq-ok true m h = (refl, h)
check-eq-ok false m h = cc

pub ok_injective {ℓ} : {A : Type ℓ} {a b : A} → ok a ≡ ok b → a ≡ b
ok_injective h = cc
