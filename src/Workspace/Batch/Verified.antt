-- ===== src/Workspace/Batch/Verified.antt =====
-- What a verification of the uses of a session means.
use boxwarden.Prelude.{
  Bytes, List, Option-cases, ap, arith, guard-eq-ok, inl, inr, is_some, none, not, ok, refl, same,
  same-eq, same_refl, some, ◌&&◌, ◌↔◌, ◌≡◌, ◌≢◌,
}
use boxwarden.Services.{Services}
use boxwarden.Session.Store.{load_session}
use boxwarden.Session.Types.{SessionRecord, SessionRecord-discrete}
use boxwarden.Workspace.Attached.Selected.{Each}
use boxwarden.Workspace.Batch.{attached_volumes, reload_session}
use boxwarden.Workspace.Batch.Checked.{Each-each_ok, Each-map, each_ok-Each, reload_session-passed}
use boxwarden.Workspace.Batch.Start.{carries_use, use_of, verify_uses_locked}
use boxwarden.Workspace.Types.{State, Use, Use-discrete, WorkspaceRecord, is_available}
use boxwarden.World.{World}
use boxwarden.World.Runs.{then_with-eq-ok}

module _ (s : Services) (d : Bytes) where
  -- The volume is ready, and carries exactly this use.
  pub record Carries (want : Use) (r : WorkspaceRecord) : Type 0 where
    pub available : r.state ≡ State.available
    pub has_disk : r.disk ≢ none
    pub settled : r.pending ≡ none
    pub use_is : r.in_use ≡ some want

  carries_use-Carries :
      (want : Use) (r : WorkspaceRecord) → carries_use s d want r ≡ ok tt → Carries want r
  unfolding carries_use
  carries_use-Carries want r h =
      let k =
        guard-eq-ok
          (is_available r.state
            && is_some r.disk
            && not (is_some r.pending)
            && same Use-discrete r.in_use (some want))
          h in
      record {
        available = ground arith;
        has_disk = ground arith;
        settled = ground arith;
        use_is = same-eq Use-discrete r.in_use (some want) (ground arith);
      }

  Carries-carries_use :
      (want : Use) (r : WorkspaceRecord) → Carries want r → carries_use s d want r ≡ ok tt
  unfolding carries_use
  Carries-carries_use want r c = elim (Option-cases r.disk) [
    | inl none_there ↦ absurd (c.has_disk none_there)
    | inr (_, e) ↦ rw (c.available, e, c.settled, c.use_is, same_refl Use-discrete (some want)) refl
  ]

  -- What is verified: the session is on record as it is, and each of its volumes carries the use of
  -- its generation.
  pub record Verified (e : SessionRecord) (w : World) : Type 0 where
    pub loads : load_session d e.name w ≡ ok e
    pub attached : List WorkspaceRecord
    pub lists : attached_volumes s d e w ≡ ok attached
    pub all_carry : Each (Carries (use_of s d e e.start_generation)) attached

  verified :
      (e : SessionRecord) (w : World) → verify_uses_locked s d e w ≡ (ok tt, w) → Verified e w
  unfolding verify_uses_locked
  verified e w h =
      let want = use_of s d e e.start_generation in
      let (loads_e, h1) = reload_session-passed s d e _ h in
      let (rs, listed, h2) = then_with-eq-ok (attached_volumes s d e w, w) _ h1 in
      record {
        loads = loads_e;
        attached = rs;
        lists = listed;
        all_carry =
            Each-map _ (Carries want) rs (carries_use-Carries want)
              (each_ok-Each (carries_use s d want) rs (ap (λ p. p.0) h2));
      }

  -- The verification of a session's uses, once it has the lock, succeeds exactly when the session is
  -- on record as it is and each of its volumes is available, without a pending operation, and
  -- carries exactly the use of its generation; and it changes nothing.
  pub verify_uses_locked_iff :
      (e : SessionRecord) (w : World) → (verify_uses_locked s d e w ≡ (ok tt, w)) ↔ Verified e w
  unfolding verify_uses_locked reload_session
  verify_uses_locked_iff e w = (
    verified e w,
    λ v.
        let want = use_of s d e e.start_generation in
        let all_ok =
          Each-each_ok (carries_use s d want) v.attached
            (Each-map _ _ v.attached (Carries-carries_use want) v.all_carry) in
        rw (v.loads, same_refl SessionRecord-discrete e, v.lists, all_ok) refl,
  )
