-- ===== src/Workspace/Batch.antt =====
-- What the batch operations on all volumes of one session share: the order of the locks, the second
-- look at session and volumes behind them, and the loops over the volumes
-- (internal/workspacex/release_uses.go, rebuild_gate.go, delete.go, prepare_start.go),
-- and the operations that use them.
pub mod Loops
pub mod Checked
pub mod Release
pub mod Released
pub mod Gate
pub mod Gated
pub mod Finalize
pub mod Finalized
pub mod Start
pub mod Ordered
pub mod Started
pub mod Verified
pub mod Promote
pub mod Promoted
use boxwarden.Prelude.{
  Bool, Bytes, List, Option, Outcome, [], bind, eqb, err, false, guard, if◌then◌else◌, is_some,
  none, not, ok, same, some, ℕ_discrete, ◌&&◌, ◌==◌, ◌∷◌,
}
use boxwarden.Ident.{valid_session_name, valid_uuid}
use boxwarden.Services.{Request, Services}
use boxwarden.Session.Store.{load_session}
use boxwarden.Session.Types.{SessionRecord, SessionRecord-discrete}
use boxwarden.Workspace.Attached.{list_session_attachments}
use boxwarden.Workspace.Bindings.{Mutation, save_record_transition}
use boxwarden.Workspace.Transition.{attached_id, attached_to}
use boxwarden.Workspace.Types.{DiskIdentity, WorkspaceRecord, is_available}
use boxwarden.World.{M, World, asks, lift, pure, ◌>>=◌, ◌>>◌}

unfoldable pub Records-discrete : Discrete (List WorkspaceRecord)
Records-discrete = hlevel ℕ_discrete

-- A loop that stops at the first volume that fails.
unfoldable pub each_ok :
    (WorkspaceRecord → Outcome (Unit {0})) → List WorkspaceRecord → Outcome (Unit {0})
each_ok f [] = ok tt
each_ok f (r ∷ rs) = bind (f r) (λ _. each_ok f rs)

module _ (s : Services) (domain_id : Bytes) where
  -- listSessionAttachments, under a storage lock that is held already.
  abbrev pub attached_volumes : SessionRecord → World → Outcome (List WorkspaceRecord)
  attached_volumes expected = list_session_attachments domain_id expected.id expected.name

  -- ListSessionAttachments.
  unfoldable pub list_attachments : SessionRecord → M (List WorkspaceRecord)
  list_attachments expected = do
    lift (guard (valid_uuid expected.id && valid_session_name expected.name))
    s.acquire_storage domain_id
    asks (attached_volumes expected)

  unfoldable pub acquire_volumes : List WorkspaceRecord → M (Unit {0})
  acquire_volumes [] = pure tt
  acquire_volumes (r ∷ rs) = s.acquire_volume domain_id r.volume_id >> acquire_volumes rs

  -- The locks of a batch: the volumes that are attached, then the session, then the storage.
  unfoldable pub enter_batch : SessionRecord → M (List WorkspaceRecord)
  unfolding list_attachments acquire_volumes
  enter_batch expected = do
    initial ← list_attachments expected
    acquire_volumes initial
    s.acquire_session domain_id expected.name
    s.acquire_storage domain_id
    pure initial

  unfoldable pub reload_session : SessionRecord → M (Unit {0})
  reload_session expected = do
    current ← asks (load_session domain_id expected.name)
    lift (guard (same SessionRecord-discrete current expected))

  unfoldable pub reload_attachments :
      SessionRecord → List WorkspaceRecord → M (List WorkspaceRecord)
  unfolding Records-discrete
  reload_attachments expected initial = do
    attached ← asks (attached_volumes expected)
    lift (guard (same Records-discrete initial attached))
    pure attached

  -- The loops that write: one volume after the other, each with the record that `next` gives, and
  -- a volume for which it gives none is passed over.
  unfoldable pub write_volumes :
      Mutation → (WorkspaceRecord → Option WorkspaceRecord) → List WorkspaceRecord → M (Unit {0})
  write_volumes m next [] = pure tt
  write_volumes m next (r ∷ rs) = elim (next r) [
    | none ↦ write_volumes m next rs
    | some q ↦ save_record_transition s.exports domain_id q m [] s.coerce >> write_volumes m next rs
  ]

  unfoldable pub request_of : WorkspaceRecord → Request
  request_of r = record {
    domain = domain_id;
    volume_id = r.volume_id;
    filesystem_uuid = r.filesystem_uuid;
    size_bytes = r.size_bytes;
  }

  abbrev pub is_disk : Option DiskIdentity → DiskIdentity → Bool
  is_disk none q = false
  is_disk (some d) q = q.device == d.device && q.inode == d.inode

  unfoldable pub admit_retained_volume : WorkspaceRecord → World → Outcome (Unit {0})
  unfolding request_of
  admit_retained_volume r w =
      if not (is_some r.disk)
      then err
      else bind (s.admit (request_of r) w) (λ q. guard (
          eqb q.domain domain_id
          && eqb q.volume_id r.volume_id
          && eqb q.filesystem_uuid r.filesystem_uuid
          && q.size_bytes == r.size_bytes
          && is_disk r.disk q.identity))

  -- Idle, and attached to exactly this session.
  unfoldable pub is_retained : SessionRecord → WorkspaceRecord → Bool
  is_retained expected r =
      is_available r.state
      && is_some r.disk
      && not (is_some r.pending)
      && not (is_some r.in_use)
      && attached_id r.attachment expected.id
      && attached_to r.attachment expected.name
