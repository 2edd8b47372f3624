-- ===== src/Workspace/Transition/Stopped.antt =====
-- What a transition knows of the session that it has found stopped, and of its write.
use boxwarden.Prelude.{
  Bytes, ap, arith, eqb, eqb_iff, ok, ok-injective, subst, sym, true, ◌&&◌, ◌∙◌, ◌≡◌,
}
use boxwarden.Backend.{Observation, is_stopped_object, shows_stopped}
use boxwarden.Services.{Services}
use boxwarden.Session.Decode.{is_stopped}
use boxwarden.Session.Rebuild.Registry.{require_no_rebuild}
use boxwarden.Session.Store.{load_session}
use boxwarden.Session.Types.{SessionRecord, tart}
use boxwarden.Workspace.Transition.{observed_stopped, stopped_session}
use boxwarden.World.{World}
use boxwarden.World.Runs.{guard-passed, guard_last, then_with-eq-ok}

-- The observer leaves the volumes alone.
pub record Watches (s : Services) : Type 0 where
  pub volumes_kept : (id : Bytes) (w : World) → (s.observe id w).1.workspaces ≡ w.workspaces

module _ (s : Services) (d : Bytes) where
  -- The backend object has been seen stopped in a world with these volumes.
  pub record SeenStopped (object_id : Bytes) (w : World) : Type 0 where
    pub seen : Observation
    pub observes : (s.observe object_id w).0 ≡ ok seen
    pub object_is : seen.object_id ≡ object_id
    pub is_there : seen.exists ≡ true
    pub state_is : is_stopped_object seen.state ≡ true

  pub record StoppedIn (name : Bytes) (w : World) (t : SessionRecord) : Type 0 where
    pub loads : load_session d name w ≡ ok t
    pub intent : is_stopped t.intended_state ≡ true
    pub kind : t.backend.kind ≡ tart
    pub no_rebuild : require_no_rebuild d name w ≡ ok tt
    pub seen_stopped : SeenStopped t.backend.object_id w

  seen_of :
      (object_id : Bytes) (w : World) (o : Observation)
      → (s.observe object_id w).0 ≡ ok o
      → shows_stopped object_id o ≡ true
      → SeenStopped object_id w
  unfolding shows_stopped
  seen_of object_id w o e h = record {
    seen = o;
    observes = e;
    object_is = (eqb_iff o.object_id object_id).0 (ground arith);
    is_there = ground arith;
    state_is = ground arith;
  }

  pub observed_stopped-SeenStopped :
      (object_id : Bytes) (w w' : World)
      → observed_stopped s d object_id w ≡ (ok tt, w')
      → SeenStopped object_id w × (w' ≡ (s.observe object_id w).1)
  unfolding observed_stopped
  observed_stopped-SeenStopped object_id w w' h =
      let (o, e, last) = then_with-eq-ok (s.observe object_id w) _ h in
      let (shown, w_is) = guard_last (shows_stopped object_id o) last in
      (seen_of object_id w o e shown, sym w_is)

  pub stopped_session-StoppedIn :
      (name : Bytes) (w w' : World) (t : SessionRecord)
      → stopped_session s d name w ≡ (ok t, w')
      → StoppedIn name w t × (w' ≡ (s.observe t.backend.object_id w).1)
  unfolding stopped_session
  stopped_session-StoppedIn name w w' t h =
      let (r, loads, h1) = then_with-eq-ok (load_session d name w, w) _ h in
      let (tests, h2) =
        guard-passed (is_stopped r.intended_state && eqb r.backend.kind tart) _ h1 in
      let (_, free, h3) = then_with-eq-ok (require_no_rebuild d name w, w) _ h2 in
      let (_, observed, h4) = then_with-eq-ok (observed_stopped s d r.backend.object_id w) _ h3 in
      let r_is : r ≡ t = ok-injective r t (ap (λ p. p.0) h4) in
      let (seen, w_is) =
        observed_stopped-SeenStopped r.backend.object_id w _
          (ap (λ o. (o, (observed_stopped s d r.backend.object_id w).1)) observed) in
      subst (λ x. StoppedIn name w x × (w' ≡ (s.observe x.backend.object_id w).1)) r_is
        (
          record {
            loads = loads;
            intent = ground arith;
            kind = (eqb_iff r.backend.kind tart).0 (ground arith);
            no_rebuild = free;
            seen_stopped = seen;
          },
          sym (ap (λ p. p.1) h4) ∙ w_is,
        )
