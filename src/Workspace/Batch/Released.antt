-- ===== src/Workspace/Batch/Released.antt =====
-- What the release of a session's uses promises.
use mathlib.Core.Option.{some-injective}
use boxwarden.Prelude.{
  Bool, Bytes, List, Option, Option-cases, ap, arith, eqb_iff, inl, inr, none, not, ok, some, subst,
  sym, true, ◌&&◌, ◌∙◌, ◌≡◌, ◌≢◌, ◌⊎◌,
}
use boxwarden.Services.{Services}
use boxwarden.Session.Decode.{is_stopping}
use boxwarden.Session.Store.{load_session}
use boxwarden.Session.Types.{IntendedState, SessionRecord}
use boxwarden.Workspace.Attached.Selected.{Each}
use boxwarden.Workspace.Batch.{attached_volumes, each_ok}
use boxwarden.Workspace.Batch.Checked.{
  Each-In, Each-map, Each-of, In, each_ok-Each, observed_stopped-passed, reload_attachments-passed,
  reload_session-passed,
}
use boxwarden.Workspace.Batch.Loops.{
  Holds, Kept, Kept-after, Ready, write_volumes-Holds, write_volumes-Kept,
}
use boxwarden.Workspace.Batch.Release.{
  check_releasable, is_own_use, release_uses_locked, without_use,
}
use boxwarden.Workspace.Bindings.{Mutation}
use boxwarden.Workspace.Decode.Marshal.{IsText}
use boxwarden.Workspace.Transition.Stopped.{SeenStopped, Watches}
use boxwarden.Workspace.Types.{State, Use, WorkspaceRecord}
use boxwarden.World.{World}
use boxwarden.World.Runs.{then_with-eq-ok}

module _ (s : Services) (d : Bytes) where
  -- A use is of the session's backend object, and of its generation if the session is stopping.
  pub record OwnUse (e : SessionRecord) (u : Use) : Type 0 where
    pub kind_is : u.backend_kind ≡ e.backend.kind
    pub object_is : u.backend_object ≡ e.backend.object_id
    pub generation_is :
        e.intended_state ≡ IntendedState.stopping → u.generation ≡ e.start_generation

  -- The volume is available on a recorded disk, nothing is pending, and its use, if it has one, is
  -- the session's own.
  pub record Releasable (e : SessionRecord) (r : WorkspaceRecord) : Type 0 where
    pub available : r.state ≡ State.available
    pub settled : r.pending ≡ none
    pub has_disk : r.disk ≢ none
    pub own_use : (u : Use) → r.in_use ≡ some u → OwnUse e u

  is_own_use-OwnUse :
      (e : SessionRecord) (o : Option Use)
      → is_own_use s d e o ≡ true
      → (u : Use) → o ≡ some u
      → OwnUse e u
  is_own_use-OwnUse e o h u is_some_u =
      let own : is_own_use s d e (some u) ≡ true = ap (is_own_use s d e) (sym is_some_u) ∙ h in
      record {
        kind_is = (eqb_iff u.backend_kind e.backend.kind).0 (ground arith);
        object_is = (eqb_iff u.backend_object e.backend.object_id).0 (ground arith);
        generation_is = λ i_is.
            (eqb_iff u.generation e.start_generation).0
              (exactly e.intended_state _ i_is (ground arith));
      }
    where
      exactly :
          (i : IntendedState) (b : Bool)
          → i ≡ IntendedState.stopping
          → not (is_stopping i && not b) ≡ true
          → b ≡ true
      exactly i b i_is k = let at_stopping : not (not b) ≡ true = rw i_is at k in ground arith

  releasable :
      (e : SessionRecord) (r : WorkspaceRecord) → check_releasable s d e r ≡ ok tt → Releasable e r
  unfolding check_releasable
  releasable e r h = record {
    available = ground arith;
    settled = ground arith;
    has_disk = ground arith;
    own_use = is_own_use-OwnUse e r.in_use (ground arith);
  }

  IsText-without_use :
      (r : WorkspaceRecord) → IsText s.coerce r → IsText s.coerce (record r { in_use = none })
  IsText-without_use r t = record {
    domain_text = t.domain_text;
    volume_text = t.volume_text;
    format_text = t.format_text;
    filesystem_text = t.filesystem_text;
    state_is_text = t.state_is_text;
    attachment_text = t.attachment_text;
    use_text = tt;
    pending_text = t.pending_text;
    disk_fits = t.disk_fits;
  }

  -- The record is the one of a volume of the list, but for the use, which is gone.
  abbrev pub Cleared : List WorkspaceRecord → WorkspaceRecord → Type 0
  Cleared rs q = (r : WorkspaceRecord) × In r rs × (q ≡ record r { in_use = none })

  without_use-none : (r : WorkspaceRecord) → without_use s d r ≡ none → r.in_use ≡ none
  unfolding without_use
  without_use-none r h = ground arith

  without_use-Ready :
      (rs : List WorkspaceRecord) (r : WorkspaceRecord)
      → In r rs
      → IsText s.coerce r
      → Ready s d (Cleared rs) Mutation.release_use (without_use s d) r
  unfolding without_use
  without_use-Ready rs r i t q h = elim (Option-cases r.in_use) [
    | inl e ↦ cc (rw (without_use, e) at h)
    | inr (u, e) ↦
        let q_is : record r { in_use = none } ≡ q = some-injective _ _ (rw (without_use, e) at h) in
        (
          ap (λ x. x.volume_id) (sym q_is),
          subst (IsText s.coerce) q_is (IsText-without_use r t),
          (r, i, sym q_is),
        )
  ]

  -- The release of the uses of a session, once it has the locks, succeeds only if the session's
  -- record and its list of volumes are still the ones that were seen, its backend object is seen
  -- stopped, and every volume is available on a recorded disk, with nothing pending and no use but
  -- one of this backend object, and of this generation if the session is stopping. Each volume that
  -- had a use then loads without one, as it was in the list otherwise; every other volume loads as
  -- before. The observer leaves the volumes alone, and the texts are UTF-8.
  pub release_uses_locked-Cleared :
      (watches : Watches s) (e : SessionRecord) (initial : List WorkspaceRecord) (w w' : World)
      → Each (IsText s.coerce) initial
      → release_uses_locked s d e initial w ≡ (ok tt, w')
      → (load_session d e.name w ≡ ok e)
        × (attached_volumes s d e w ≡ ok initial)
        × SeenStopped s d e.backend.object_id w
        × Each (Releasable e) initial
        × Each (λ r. (r.in_use ≡ none) ⊎ Holds s d (Cleared initial) r.volume_id w') initial
        × ((v : Bytes) → Kept s d (Cleared initial) v w w')
  unfolding release_uses_locked
  release_uses_locked-Cleared watches e initial w w' text h =
      let (loads, h1) = reload_session-passed s d e _ h in
      let (lists, h2) = reload_attachments-passed s d e initial _ h1 in
      let (seen, h3) = observed_stopped-passed s d e.backend.object_id _ h2 in
      let w1 = (s.observe e.backend.object_id w).1 in
      let (_, checked, h4) = then_with-eq-ok (each_ok (check_releasable s d e) initial, w1) _ h3 in
      let ready =
        Each-of (Ready s d (Cleared initial) Mutation.release_use (without_use s d)) initial
          (λ r i. without_use-Ready initial r i (Each-In (IsText s.coerce) initial text r i)) in
      let same_volumes = watches.volumes_kept e.backend.object_id w in
      (
        loads,
        lists,
        seen,
        Each-map _ (Releasable e) initial (releasable e)
            (each_ok-Each (check_releasable s d e) initial checked),
        Each-map _ _ initial (λ r k. passed_or_held r k)
            (write_volumes-Holds s d (Cleared initial) Mutation.release_use (without_use s d)
              initial w1 w' ready h4),
        λ v.
            subst (λ x. Kept s d (Cleared initial) v w x) (ap (λ p. p.1) h4)
              (Kept-after s d (Cleared initial) v w w1 _ same_volumes (
                write_volumes-Kept s d (Cleared initial) Mutation.release_use (without_use s d)
                  initial w1 ready v)),
      )
    where
      passed_or_held :
          (r : WorkspaceRecord)
          → (without_use s d r ≡ none) ⊎ Holds s d (Cleared initial) r.volume_id w'
          → (r.in_use ≡ none) ⊎ Holds s d (Cleared initial) r.volume_id w'
      passed_or_held r (inl e) = inl (without_use-none r e)
      passed_or_held r (inr k) = inr k
