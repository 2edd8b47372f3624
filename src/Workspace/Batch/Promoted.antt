-- ===== src/Workspace/Batch/Promoted.antt =====
-- What a promotion that succeeds leaves, and what a verification of uses means.
use boxwarden.Prelude.{
  Bool-cases, Bytes, ap, arith, eqb_iff, if◌then◌else◌, inl, inr, is_some, none, not, ok,
  ok-injective, refl, same, same-eq, some, subst, sym, true, ◌∙◌, ◌≡◌, ◌⊎◌,
}
use boxwarden.Services.{Qualification, Services}
use boxwarden.Workspace.Batch.{request_of}
use boxwarden.Workspace.Batch.Finalized.{sync_kept}
use boxwarden.Workspace.Batch.Promote.{
  as_available, confirm_promoted, is_promotable, promote_locked, publish_promoted, qualifies,
}
use boxwarden.Workspace.Bindings.{Mutation, load_record}
use boxwarden.Workspace.Bindings.History.{load_record-Loaded}
use boxwarden.Workspace.Bindings.Step.{load_record-same}
use boxwarden.Workspace.Decode.Marshal.{IsText}
use boxwarden.Workspace.Transition.Granted.{written}
use boxwarden.Workspace.Types.{
  Disk-discrete, DiskIdentity, State, WorkspaceRecord, complete_disk, is_available,
}
use boxwarden.World.{World, sync_directory}
use boxwarden.World.Runs.{guard-passed, then_with-eq-ok}

module _ (s : Services) (d : Bytes) where
  -- The formatter's proof is one of this volume, and names a whole disk identity.
  pub record Proved (volume_id : Bytes) (r : WorkspaceRecord) (q : Qualification) : Type 0 where
    pub domain_is : q.domain ≡ r.domain
    pub volume_is : q.volume_id ≡ volume_id
    pub filesystem_is : q.filesystem_uuid ≡ r.filesystem_uuid
    pub size_is : q.size_bytes ≡ r.size_bytes
    pub whole : complete_disk q.identity ≡ true

  qualifies-Proved :
      (volume_id : Bytes) (r : WorkspaceRecord) (q : Qualification)
      → qualifies s d volume_id r q ≡ true
      → Proved volume_id r q
  unfolding qualifies
  qualifies-Proved volume_id r q h = record {
    domain_is = (eqb_iff q.domain r.domain).0 (ground arith);
    volume_is = (eqb_iff q.volume_id volume_id).0 (ground arith);
    filesystem_is = (eqb_iff q.filesystem_uuid r.filesystem_uuid).0 (ground arith);
    size_is = ground arith;
    whole = ground arith;
  }

  promotable-facts :
      (r : WorkspaceRecord)
      → is_promotable s d r ≡ true
      → (r.attachment ≡ none) × (r.in_use ≡ none) × (r.pending ≡ none)
  unfolding is_promotable
  promotable-facts r h = ground arith

  is_available-eq : (t : State) → is_available t ≡ true → t ≡ State.available
  is_available-eq State.available h = refl
  is_available-eq State.creating h = cc
  is_available-eq State.failed h = cc
  is_available-eq (State.other _) h = cc

  synced-same : (w w' : World) → sync_directory w ≡ (ok tt, w') → w'.workspaces ≡ w.workspaces
  synced-same w w' h = sync_kept w w' h

  confirmed :
      (r x : WorkspaceRecord) (disk : DiskIdentity) (w w' : World)
      → confirm_promoted s d r disk w ≡ (ok x, w')
      → (x ≡ r) × (r.disk ≡ some disk) × (w'.workspaces ≡ w.workspaces)
  unfolding confirm_promoted
  confirmed r x disk w w' h =
      let (same_disk, h1) = guard-passed (same Disk-discrete r.disk (some disk)) _ h in
      let (_, done, last) = then_with-eq-ok (sync_directory w) _ h1 in
      let w1 = (sync_directory w).1 in
      (
        sym (ok-injective r x (ap (λ p. p.0) last)),
        same-eq Disk-discrete r.disk (some disk) same_disk,
        sym (ap (λ p. p.1.workspaces) last) ∙ synced-same w w1 (ap (λ o. (o, w1)) done),
      )

  -- What a promotion leaves: available, on the disk of the proof, unbound, and on record.
  pub record OnRecord (volume_id : Bytes) (disk : DiskIdentity) (x : WorkspaceRecord) (w w' : World)
      : Type 0 where
    pub available : x.state ≡ State.available
    pub disk_is : x.disk ≡ some disk
    pub unbound : (x.attachment ≡ none) × (x.in_use ≡ none) × (x.pending ≡ none)
    pub reads_back : load_record d volume_id w' ≡ ok x
    pub others_kept : (u : Bytes) → (volume_id ≡ u) ⊎ (load_record d u w' ≡ load_record d u w)

  settles :
      (volume_id : Bytes) (r x : WorkspaceRecord) (disk : DiskIdentity) (w w' : World)
      → load_record d volume_id w ≡ ok r
      → is_promotable s d r ≡ true
      → IsText s.coerce x
      → (if is_available r.state then confirm_promoted s d r disk else publish_promoted s d r disk)
          w
        ≡ (ok x, w')
      → OnRecord volume_id disk x w w'
  unfolding publish_promoted
  settles volume_id r x disk w w' loads_r promotable text h =
      let free = promotable-facts r promotable in
      elim (Bool-cases (is_available r.state)) [
        | inl there ↦
            let (x_is, on_disk, kept) = confirmed r x disk w w' (rw there at h) in
            record {
              available = ap (λ y. y.state) x_is ∙ is_available-eq r.state there;
              disk_is = ap (λ y. y.disk) x_is ∙ on_disk;
              unbound = rw x_is free;
              reads_back = load_record-same d volume_id w w' kept ∙ loads_r ∙ ap ok (sym x_is);
              others_kept = λ u. inr (load_record-same d u w w' kept);
            }
        | inr creating ↦
            let (_, h5) = guard-passed (not (is_some r.disk)) _ (rw creating at h) in
            let next = as_available s d r disk in
            let (x_is, done) = written s d Mutation.promote_verified next x w w w' refl text h5 in
            let named =
              ap (λ y. y.volume_id) x_is ∙ (load_record-Loaded d volume_id w r loads_r).volume_is in
            record {
              available = ap (λ y. y.state) x_is;
              disk_is = ap (λ y. y.disk) x_is;
              unbound = rw x_is free;
              reads_back = subst (λ v. load_record d v w' ≡ ok x) named done.reads_back;
              others_kept =
                  subst (λ v. (u : Bytes) → (v ≡ u) ⊎ (load_record d u w' ≡ load_record d u w))
                    named done.others_kept;
            }
      ]

  -- What a promotion that succeeds has found, and what it leaves.
  pub record Promoted (volume_id : Bytes) (x : WorkspaceRecord) (w w' : World) : Type 0 where
    pub old : WorkspaceRecord
    pub loads : load_record d volume_id w ≡ ok old
    pub qualified : Qualification
    pub admits : s.admit (record (request_of s d old) { volume_id = volume_id }) w ≡ ok qualified
    pub proved : Proved volume_id old qualified
    pub leaves : OnRecord volume_id qualified.identity x w w'

  -- A promotion that succeeds, once it has the lock, rests on the formatter's proof for exactly this
  -- volume, which was unbound; the volume is then available on the disk of the proof and unbound,
  -- and loads so, and every other volume loads as before. A volume that is promoted already is
  -- confirmed, if it is on this disk. The texts are UTF-8.
  pub promote_locked-Promoted :
      (volume_id : Bytes) (x : WorkspaceRecord) (w w' : World)
      → IsText s.coerce x
      → promote_locked s d volume_id w ≡ (ok x, w')
      → Promoted volume_id x w w'
  unfolding promote_locked request_of
  promote_locked-Promoted volume_id x w w' text h =
      let (r, loads_r, h1) = then_with-eq-ok (load_record d volume_id w, w) _ h in
      let (promotable, h2) = guard-passed (is_promotable s d r) _ h1 in
      let (q, admitted, h3) =
        then_with-eq-ok (s.admit (record (request_of s d r) { volume_id = volume_id }) w, w) _ h2 in
      let (fits, h4) = guard-passed (qualifies s d volume_id r q) _ h3 in
      let proof_of = qualifies-Proved volume_id r q fits in
      record {
        old = r;
        loads = loads_r;
        qualified = q;
        admits = admitted;
        proved = proof_of;
        leaves = settles volume_id r x q.identity w w' loads_r promotable text h4;
      }
