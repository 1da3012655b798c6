-- ===== src/Session/OperationsValid.antt =====
-- The operations on a stored session keep the session valid, from the load of its record on.
use mailcleanup.Prelude.{
  Bool, true, false, String, Option, none, some, ◌≡◌, refl, ap, subst, if◌then◌else◌,
}
use mailcleanup.Session.Result.{SessionErrorCode, value, value_injective}
use mailcleanup.Session.Model.{
  Library, SessionState, StoredSessionRecord, SessionSnapshot, snapshot_of,
}
use mailcleanup.Session.Ports.{Ports, Session}
use mailcleanup.Session.Monad.{Method, give, ◌>>=◌}
use mailcleanup.Session.Calls.{load_record}
use mailcleanup.Session.Preserves.{
  Preserves, preserving, Preserves-bind, Preserves-give, Preserves-pure, Preserves-if,
  Preserves-ask, Preserves-settle,
}
use mailcleanup.Session.Frames.{now-Preserves, load_record-Preserves}
use mailcleanup.Session.Lifecycle.{
  snapshot_state, classify, classify_time, timed, restore_session, refresh_record, refresh_session,
  disconnect_local, forget_local,
}
use mailcleanup.Session.Revoke.{revoke_record, revoke_remote}
use mailcleanup.Session.Inversion.{paired, >>=-inv}
use mailcleanup.Session.Valid.{
  IsValid, IsValid-IsInner, is_disconnected, IsCoherent, Preserves-bind-known, load_record_key,
}
use mailcleanup.Session.AttemptsValid.{set_snapshot-IsValid}
use mailcleanup.Session.StoredValid.{
  settle_at-IsValid, refresh_with-IsValid, ask_revocation-IsValid,
}

module _ (lib : Library) (ports : Ports lib.Bytes) where
  -- a record, if there is one, is of the key
  abbrev IsOf : String → Option StoredSessionRecord → Type 0
  IsOf key none = Unit
  IsOf key (some r) = r.identity.account_key ≡ key

  load_record-IsOf :
      (key : String) (o : Option StoredSessionRecord) (s : Session ports.World)
      → (load_record lib ports key s).0 ≡ value o
      → IsOf key o
  load_record-IsOf key none s h = tt
  load_record-IsOf key (some r) s h =
      load_record_key lib ports key s (paired (load_record lib ports key) s h)

  -- from the load of a record on
  on_record :
      {A : Type 0} (key : String) (next : Option StoredSessionRecord → Method ports.World A)
      → ((o : Option StoredSessionRecord) → IsOf key o → Preserves IsValid (next o))
      → Preserves IsValid (load_record lib ports key >>= next)
  on_record key next k =
      Preserves-bind-known _ next (load_record-Preserves lib ports IsValid-IsInner key)
        λ o s h. k o (load_record-IsOf key o s h)

  disconnected-IsCoherent :
      (key : String) (code : Option SessionErrorCode)
      → IsCoherent key (snapshot_of SessionState.disconnected none code)
  disconnected-IsCoherent key code = record { of_key = tt; without = λ h. refl; within = λ h. refl }

  refresh_record-IsValid :
      (key : String) (o : Option StoredSessionRecord)
      → IsOf key o
      → Preserves IsValid (refresh_record lib ports key o)
  unfolding refresh_record
  refresh_record-IsValid key none h =
      set_snapshot-IsValid lib ports key _
        (disconnected-IsCoherent key (some SessionErrorCode.session_not_found))
  refresh_record-IsValid key (some r) h =
      Preserves-if _ _ _
        (Preserves-if _ _ _ (settle_at-IsValid lib ports key r h _ _ refl)
          (refresh_with-IsValid lib ports key r h r.credentials.refresh_token))
        (settle_at-IsValid lib ports key r h _ _ refl)

  pub refresh_session-IsValid : (key : String) → Preserves IsValid (refresh_session lib ports key)
  unfolding refresh_session
  refresh_session-IsValid key =
      Preserves-bind _ _ (Preserves-pure _) λ k. on_record k _ (refresh_record-IsValid k)

  revoke_record-IsValid :
      (key : String) (o : Option StoredSessionRecord)
      → IsOf key o
      → Preserves IsValid (revoke_record lib ports key o)
  unfolding revoke_record
  revoke_record-IsValid key none h = Preserves-give _
  revoke_record-IsValid key (some r) h =
      Preserves-if _ _ _ (Preserves-give _) (ask_revocation-IsValid lib ports key r h)

  pub revoke_remote-IsValid : (key : String) → Preserves IsValid (revoke_remote lib ports key)
  unfolding revoke_remote
  revoke_remote-IsValid key =
      Preserves-bind _ _ (Preserves-pure _) λ k. on_record k _ (revoke_record-IsValid k)

  -- Every snapshot that the method gives is coherent with the key.
  abbrev GivesCoherent : String → Method ports.World SessionSnapshot → Type 0
  GivesCoherent key m =
      (s : Session ports.World) (snapshot : SessionSnapshot)
      → (m s).0 ≡ value snapshot
      → IsCoherent key snapshot

  GivesCoherent-give :
      (key : String) (snapshot : SessionSnapshot)
      → IsCoherent key snapshot
      → GivesCoherent key (give snapshot)
  unfolding give
  GivesCoherent-give key snapshot good s other h = subst (IsCoherent key) (value_injective h) good

  GivesCoherent-if :
      (key : String) (b : Bool) (m n : Method ports.World SessionSnapshot)
      → GivesCoherent key m
      → GivesCoherent key n
      → GivesCoherent key (if b then m else n)
  GivesCoherent-if key true m n km kn = km
  GivesCoherent-if key false m n km kn = kn

  IsCoherent-if :
      (key : String) (b : Bool) (x y : SessionSnapshot)
      → IsCoherent key x
      → IsCoherent key y
      → IsCoherent key (if b then x else y)
  IsCoherent-if key true x y p q = p
  IsCoherent-if key false x y p q = q

  module _ (key : String) (r : StoredSessionRecord) (same : r.identity.account_key ≡ key) where
    connected-IsCoherent :
        (state : SessionState) (code : Option SessionErrorCode)
        → is_disconnected state ≡ false
        → IsCoherent key (snapshot_state state r code)
    connected-IsCoherent state code known = record {
      of_key = same;
      without = λ h. cc;
      within = λ h. cc;
    }

    timed-GivesCoherent : GivesCoherent key (timed lib ports r)
    unfolding timed classify_time
    timed-GivesCoherent s snapshot h =
        let (time, _, k) = >>=-inv _ _ _ (paired (timed lib ports r) s h) in
        GivesCoherent-give key _
          (IsCoherent-if key _ _ _ (connected-IsCoherent SessionState.refresh_required none refl)
            (connected-IsCoherent SessionState.connected none refl))
          _ snapshot (ap (λ z. z.0) k)

    classify-GivesCoherent : GivesCoherent key (classify lib ports (some r))
    unfolding classify
    classify-GivesCoherent =
        GivesCoherent-if key _ _ _
          (GivesCoherent-if key _ _ _
            (GivesCoherent-give key _ (connected-IsCoherent SessionState.revoked none refl))
            timed-GivesCoherent)
          (GivesCoherent-give key _ (
            connected-IsCoherent SessionState.scope_mismatch (some SessionErrorCode.scope_mismatch)
              refl))

  classified_coherent :
      (key : String) (o : Option StoredSessionRecord)
      → IsOf key o
      → GivesCoherent key (classify lib ports o)
  unfolding classify
  classified_coherent key none h = GivesCoherent-give key _ (disconnected-IsCoherent key none)
  classified_coherent key (some r) h = classify-GivesCoherent key r h

  classify-IsValid : (o : Option StoredSessionRecord) → Preserves IsValid (classify lib ports o)
  unfolding classify timed
  classify-IsValid none = Preserves-give _
  classify-IsValid (some r) = search (preserving, now-Preserves, IsValid-IsInner)

  pub restore_session-IsValid : (key : String) → Preserves IsValid (restore_session lib ports key)
  unfolding restore_session
  restore_session-IsValid key = Preserves-bind _ _ (Preserves-pure _) λ k. on_record k _ λ o of.
      Preserves-bind-known _ _ (classify-IsValid o) λ snapshot s h.
        set_snapshot-IsValid lib ports k snapshot (classified_coherent k o of s snapshot h)

  pub disconnect_local-IsValid : (key : String) → Preserves IsValid (disconnect_local lib ports key)
  unfolding disconnect_local
  disconnect_local-IsValid key = Preserves-bind _ _ (Preserves-pure _) λ k.
      Preserves-bind _ _ (set_snapshot-IsValid lib ports k _ (disconnected-IsCoherent k none))
        λ _. Preserves-give tt

  pub forget_local-IsValid : (key : String) → Preserves IsValid (forget_local lib ports key)
  unfolding forget_local
  forget_local-IsValid key = Preserves-bind _ _ (Preserves-pure _) λ k.
      Preserves-bind _ _ (Preserves-ask IsValid-IsInner _) λ reply.
        Preserves-bind _ _ (Preserves-settle _ reply) λ _.
          Preserves-bind _ _ (set_snapshot-IsValid lib ports k _ (disconnected-IsCoherent k none))
            λ _. Preserves-give tt
