-- ===== src/Session/Result.antt =====
-- What a call gives back: the value, or the exception that it raised. And what a call of a port
-- gives: it may also answer with a value that is not of the type it should have.
use mailcleanup.Prelude.{Bool, true, false, Option, none, some, ◌≡◌, refl, if◌then◌else◌}

-- `SessionErrorCode`
pub data SessionErrorCode : Type 0 where
  no_pending_authorization callback_invalid callback_error state_mismatch : SessionErrorCode
  callback_replayed authorization_expired browser_disabled : SessionErrorCode
  callback_binding_invalid authorization_uri_invalid random_source_invalid : SessionErrorCode
  clock_invalid exchange_failed scope_mismatch profile_failed account_mismatch : SessionErrorCode
  store_failed stored_data_invalid refresh_failed revocation_failed : SessionErrorCode
  session_not_found : SessionErrorCode

pub data Exception : Type 0 where
  session_error : SessionErrorCode → Exception
  value_error type_error : Exception

pub data Outcome (A : Type 0) : Type 0 where
  raised : Exception → Outcome A
  value : A → Outcome A

pub data Reply (A : Type 0) : Type 0 where
  failed foreign : Reply A
  answer : A → Reply A

abbrev pub and_then : {A B : Type 0} → Outcome A → (A → Outcome B) → Outcome B
and_then (raised e) f = raised e
and_then (value a) f = f a

-- `if not test: raise ValueError`
abbrev pub expect : {B : Type 0} → Bool → Outcome B → Outcome B
expect true m = m
expect false m = raised value_error

-- `_controlled_call` on a computation: every exception becomes one session error.
abbrev pub controlled : {A : Type 0} → SessionErrorCode → Outcome A → Outcome A
controlled code (raised e) = raised (session_error code)
controlled code (value a) = value a

-- `except SessionError`: no other exception is caught.
unfoldable pub caught : {A : Type 0} → Outcome A → Outcome (Option A)
caught (value a) = value (some a)
caught (raised (session_error code)) = value none
caught (raised value_error) = raised value_error
caught (raised type_error) = raised type_error

pub value_injective : {A : Type 0} {a b : A} → value a ≡ value b → a ≡ b
value_injective h = cc

pub expect-eq-value :
    {B : Type 0} (t : Bool) (m : Outcome B) {b : B}
    → expect t m ≡ value b
    → (t ≡ true) × (m ≡ value b)
expect-eq-value true m h = (refl, h)
expect-eq-value false m h = cc

pub and_then-eq-value :
    {A B : Type 0} (m : Outcome A) (f : A → Outcome B) {b : B}
    → and_then m f ≡ value b
    → (a : A) × (m ≡ value a) × (f a ≡ value b)
and_then-eq-value (raised e) f h = cc
and_then-eq-value (value a) f h = (a, refl, h)

pub controlled-eq-value :
    {A : Type 0} (code : SessionErrorCode) (m : Outcome A) {a : A}
    → controlled code m ≡ value a
    → m ≡ value a
controlled-eq-value code (raised e) h = cc
controlled-eq-value code (value b) h = h

-- A test that guards a value was met.
pub guarded-eq-value :
    {A : Type 0} (t : Bool) (m : Outcome A) (e : Exception) {a : A}
    → (if t then m else raised e) ≡ value a
    → (t ≡ true) × (m ≡ value a)
guarded-eq-value true m e h = (refl, h)
guarded-eq-value false m e h = cc
