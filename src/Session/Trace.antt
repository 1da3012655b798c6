-- ===== src/Session/Trace.antt =====
-- The life of a session: its operations one after the other, returning or raising, and the world
-- that moves between them.
use mailcleanup.Prelude.{ℕ, String, Option, none, [], ◌≡◌, subst, arith}
use mailcleanup.Session.Result.{value, expect-eq-value, value_injective}
use mailcleanup.Session.Model.{Library, AuthorizationCallback, PendingAuthorization}
use mailcleanup.Session.Ports.{Ports, Session}
use mailcleanup.Session.Authorize.{new_session, prepare_authorization, present_authorization}
use mailcleanup.Session.Complete.{complete_authorization}
use mailcleanup.Session.Lifecycle.{restore_session, refresh_session, disconnect_local, forget_local}
use mailcleanup.Session.Revoke.{revoke_remote}
use mailcleanup.Session.Valid.{IsValid}
use mailcleanup.Session.AttemptsValid.{
  complete_authorization-IsValid, present_authorization-IsValid, prepare_authorization-IsValid,
}
use mailcleanup.Session.OperationsValid.{
  restore_session-IsValid, refresh_session-IsValid, revoke_remote-IsValid, disconnect_local-IsValid,
  forget_local-IsValid,
}

-- One call, whatever it gives back, or a change of the world outside.
pub data Step (lib : Library) (ports : Ports lib.Bytes) (ttl : ℕ) (s : Session ports.World)
    : Session ports.World → Type 0 where
  prepared :
      (expected : Option String)
      → Step lib ports ttl s (prepare_authorization lib ports ttl expected s).1
  presented :
      (p : PendingAuthorization) → Step lib ports ttl s (present_authorization lib ports p s).1
  completed :
      (callback : AuthorizationCallback)
      → Step lib ports ttl s (complete_authorization lib ports callback s).1
  restored : (key : String) → Step lib ports ttl s (restore_session lib ports key s).1
  refreshed : (key : String) → Step lib ports ttl s (refresh_session lib ports key s).1
  revoked : (key : String) → Step lib ports ttl s (revoke_remote lib ports key s).1
  disconnected : (key : String) → Step lib ports ttl s (disconnect_local lib ports key s).1
  forgotten : (key : String) → Step lib ports ttl s (forget_local lib ports key s).1
  moved : (w : ports.World) → Step lib ports ttl s (record s { world = w })

pub data Reach (lib : Library) (ports : Ports lib.Bytes) (ttl : ℕ) (s : Session ports.World)
    : Session ports.World → Type 0 where
  start : Reach lib ports ttl s s
  next :
      {t u : Session ports.World}
      → Reach lib ports ttl s t
      → Step lib ports ttl t u
      → Reach lib ports ttl s u

module _ (lib : Library) (ports : Ports lib.Bytes) (ttl : ℕ) where
  Step-IsValid : {s t : Session ports.World} → Step lib ports ttl s t → IsValid s → IsValid t
  Step-IsValid {s = s} (prepared expected) v =
      (prepare_authorization-IsValid lib ports ttl expected).holds s v
  Step-IsValid {s = s} (presented p) v = (present_authorization-IsValid lib ports p).holds s v
  Step-IsValid {s = s} (completed callback) v =
      (complete_authorization-IsValid lib ports callback).holds s v
  Step-IsValid {s = s} (restored key) v = (restore_session-IsValid lib ports key).holds s v
  Step-IsValid {s = s} (refreshed key) v = (refresh_session-IsValid lib ports key).holds s v
  Step-IsValid {s = s} (revoked key) v = (revoke_remote-IsValid lib ports key).holds s v
  Step-IsValid {s = s} (disconnected key) v = (disconnect_local-IsValid lib ports key).holds s v
  Step-IsValid {s = s} (forgotten key) v = (forget_local-IsValid lib ports key).holds s v
  Step-IsValid (moved w) v = record {
    bounded = v.bounded;
    in_order = v.in_order;
    coherent = v.coherent;
  }

  from_IsValid : {s t : Session ports.World} → Reach lib ports ttl s t → IsValid s → IsValid t
  from_IsValid start v = v
  from_IsValid (next path step) v = Step-IsValid step (from_IsValid path v)

  new_session-IsValid :
      (w : ports.World) {s : Session ports.World}
      → new_session lib ports ttl w ≡ value s
      → IsValid s
  unfolding new_session
  new_session-IsValid w h =
      let fresh : Session ports.World = record {
        pending = none;
        consumed = [];
        snapshots = [];
        world = w;
      } in
      let valid : IsValid fresh = record { bounded = omega arith; in_order = tt; coherent = tt } in
      subst IsValid (value_injective (expect-eq-value _ (value fresh) h).1) valid

  -- Whatever is called on a new session, and whatever the ports answer, return or raise: at most 64
  -- digests are kept, a pending attempt has a state and a verifier of the allowed characters and
  -- lengths, and every snapshot is of the account of its key and lacks an identity exactly when it
  -- is disconnected.
  pub session_stays-IsValid :
      (w : ports.World) {s t : Session ports.World}
      → new_session lib ports ttl w ≡ value s
      → Reach lib ports ttl s t
      → IsValid t
  session_stays-IsValid w made path = from_IsValid path (new_session-IsValid w made)
