-- ===== src/Session/Preserves.antt =====
-- What methods leave true, whatever the ports answer: one rule for each way to build a method.
use mailcleanup.Prelude.{Bool, true, false, Option, none, some, ◌≡◌, refl, if◌then◌else◌}
use mailcleanup.Session.Result.{
  SessionErrorCode, Outcome, raised, value, Reply, failed, foreign, answer,
}
use mailcleanup.Session.Ports.{Session}
use mailcleanup.Session.Monad.{
  Method, give, raise, pure, read, write, ask, demand, settle, typed, trying, ◌>>=◌,
}

-- From a session of `P` the method ends in one of `P`, also by an exception.
pub record Preserves {W A : Type 0} (P : Session W → Type 0) (m : Method W A) : Type 0 where
  pub holds : (s : Session W) → P s → P (m s).1

-- The outer world is of no concern to `P`.
pub record IsInner {W : Type 0} (P : Session W → Type 0) : Type 0 where
  pub world_free : (s : Session W) (w : W) → P s → P (record s { world = w })

module _ {W A : Type 0} {P : Session W → Type 0} where
  pub Preserves-give : (a : A) → Preserves P (give a)
  unfolding give
  Preserves-give a = record { holds = λ s h. h }

  pub Preserves-raise : (code : SessionErrorCode) → Preserves P (raise {A = A} code)
  unfolding raise
  Preserves-raise code = record { holds = λ s h. h }

  pub Preserves-pure : (o : Outcome A) → Preserves P (pure o)
  unfolding pure
  Preserves-pure o = record { holds = λ s h. h }

  pub Preserves-read : (f : Session W → A) → Preserves P (read f)
  unfolding read
  Preserves-read f = record { holds = λ s h. h }

  pub Preserves-ask : IsInner P → (call : W → A × W) → Preserves P (ask call)
  unfolding ask
  Preserves-ask inner call = record { holds = λ s h. inner.world_free s (call s.world).1 h }

  pub Preserves-settle : (code : SessionErrorCode) (r : Reply A) → Preserves P (settle code r)
  unfolding settle
  Preserves-settle code failed = record { holds = λ s h. h }
  Preserves-settle code foreign = record { holds = λ s h. h }
  Preserves-settle code (answer a) = record { holds = λ s h. h }

  pub Preserves-typed : (code : SessionErrorCode) (o : Option A) → Preserves P (typed code o)
  unfolding typed
  Preserves-typed code none = record { holds = λ s h. h }
  Preserves-typed code (some a) = record { holds = λ s h. h }

  pub Preserves-trying : (m : Method W A) → Preserves P m → Preserves P (trying m)
  unfolding trying
  Preserves-trying m k = record { holds = k.holds }

  pub Preserves-if :
      (b : Bool) (m n : Method W A)
      → Preserves P m
      → Preserves P n
      → Preserves P (if b then m else n)
  Preserves-if true m n km kn = km
  Preserves-if false m n km kn = kn

module _ {W : Type 0} {P : Session W → Type 0} where
  pub Preserves-write :
      (f : Session W → Session W) → ((s : Session W) → P s → P (f s)) → Preserves P (write f)
  unfolding write
  Preserves-write f k = record { holds = k }

  pub Preserves-demand : (b : Bool) (code : SessionErrorCode) → Preserves P (demand b code)
  unfolding demand
  Preserves-demand true code = record { holds = λ s h. h }
  Preserves-demand false code = record { holds = λ s h. h }

module _ {W A B : Type 0} {P : Session W → Type 0} where
  -- what follows a computation may use that it did not raise
  pub Preserves-bind-pure :
      (o : Outcome A) (next : A → Method W B)
      → ((a : A) → o ≡ value a → Preserves P (next a))
      → Preserves P (pure o >>= next)
  unfolding ◌>>=◌
  Preserves-bind-pure (raised e) next k = record { holds = λ s h. h }
  Preserves-bind-pure (value a) next k = k a refl

  continue-holds :
      (o : Outcome A) (next : A → Method W B)
      → ((a : A) → Preserves P (next a))
      → (s : Session W) → P s
      → P ((pure o >>= next) s).1
  continue-holds o next k = (Preserves-bind-pure o next (λ a _. k a)).holds

  pub Preserves-bind :
      (m : Method W A) (next : A → Method W B)
      → Preserves P m
      → ((a : A) → Preserves P (next a))
      → Preserves P (m >>= next)
  unfolding ◌>>=◌
  Preserves-bind m next km k = record {
    holds = λ s h. let (r, s') = m s in continue-holds r next k s' (km.holds s h);
  }

pub ruleset preserving = (
  Preserves-give, Preserves-raise, Preserves-pure, Preserves-read, Preserves-ask, Preserves-settle,
  Preserves-typed, Preserves-trying, Preserves-if, Preserves-demand, Preserves-bind,
)
