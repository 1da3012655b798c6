-- ===== src/Session/Monad.antt =====
-- A method of the session: it reads and writes the session and may raise. What was written before
-- the exception stays.
use mailcleanup.Prelude.{Bool, true, false, Option, none, some}
use mailcleanup.Session.Result.{
  SessionErrorCode, session_error, Outcome, raised, value, Reply, failed, foreign, answer, caught,
}
use mailcleanup.Session.Ports.{Session}

abbrev pub Method : Type 0 → Type 0 → Type 0
Method W A = Session W → Outcome A × Session W

module _ {W A : Type 0} where
  unfoldable pub give : A → Method W A
  give a s = (value a, s)

  unfoldable pub raise : SessionErrorCode → Method W A
  raise code s = (raised (session_error code), s)

  -- A computation that reads nothing of the session.
  unfoldable pub pure : Outcome A → Method W A
  pure o s = (o, s)

  unfoldable pub read : (Session W → A) → Method W A
  read f s = (value (f s), s)

  -- A call of a port, whatever becomes of it.
  unfoldable pub ask : (W → A × W) → Method W A
  ask call s = let (a, w) = call s.world in (value a, record s { world = w })

  -- What `_controlled_call` makes of an answer: `none` is a value of another type.
  unfoldable pub settle : SessionErrorCode → Reply A → Method W (Option A)
  settle code failed s = (raised (session_error code), s)
  settle code foreign s = (value none, s)
  settle code (answer a) s = (value (some a), s)

  unfoldable pub typed : SessionErrorCode → Option A → Method W A
  typed code none s = (raised (session_error code), s)
  typed code (some a) s = (value a, s)

  unfoldable pub trying : Method W A → Method W (Option A)
  unfolding caught
  trying m s = let (r, s') = m s in (caught r, s')

module _ {W : Type 0} where
  unfoldable pub write : (Session W → Session W) → Method W (Unit {0})
  write f s = (value tt, f s)

  -- `if not test: raise SessionError(code)`
  unfoldable pub demand : Bool → SessionErrorCode → Method W (Unit {0})
  demand true code s = (value tt, s)
  demand false code s = (raised (session_error code), s)

module _ {W A B : Type 0} where
  abbrev pub continue : Outcome A → (A → Method W B) → Method W B
  continue (raised e) next s = (raised e, s)
  continue (value a) next s = next a s

  -- Opening this opens the ways to build a method too.
  infixl 5 ◌>>=◌ ◌>>◌
  unfoldable pub ◌>>=◌ : Method W A → (A → Method W B) → Method W B
  unfolding give raise pure read ask settle typed trying write demand
  ◌>>=◌ m next s = let (r, s') = m s in continue r next s'

  abbrev pub ◌>>◌ : Method W A → Method W B → Method W B
  m >> rest = m >>= λ _. rest
