-- ===== src/Workspace/Batch/Ordered.antt =====
-- The order of the writes before a start.
use mathlib.Core.Option.{some-injective}
-- The observer leaves the session records alone, too.
use boxwarden.Prelude.{
  Bytes, List, Option, Outcome, ap, inl, inr, none, ok, some, subst, sym, ◌∙◌, ◌≡◌, ◌⊎◌,
}
use boxwarden.Services.{Services}
use boxwarden.Session.Rebuild.Journal.{RebuildJournal}
use boxwarden.Session.Store.{save_record}
use boxwarden.Session.Store.Saved.{save_record-Effect}
use boxwarden.Session.Types.{SessionRecord}
use boxwarden.Workspace.Attached.Selected.{Each}
use boxwarden.Workspace.Batch.{each_ok, reload_attachments, reload_session, write_volumes}
use boxwarden.Workspace.Batch.Checked.{
  Each-In, Each-map, Each-of, In, observed_stopped-leaves, reload_attachments-keeps,
  reload_attachments-value, reload_session-keeps,
}
use boxwarden.Workspace.Batch.Loops.{Holds, Ready, write_volumes-Holds, write_volumes-sessions}
use boxwarden.Workspace.Batch.Start.{
  as_starting, check_startable, commit_start, prepare_locked, rebuild_admits, use_of, with_use,
}
use boxwarden.Workspace.Bindings.{Mutation}
use boxwarden.Workspace.Bindings.Step.{load_record-same}
use boxwarden.Workspace.Decode.Marshal.{IsText, UseText}
use boxwarden.Workspace.Transition.{observed_stopped}
use boxwarden.Workspace.Transition.Stopped.{Watches}
use boxwarden.Workspace.Types.{Use, WorkspaceRecord}
use boxwarden.World.{World}
use boxwarden.World.Runs.{then_with-leaves}

pub record Looks (s : Services) : Type 0 where
  pub sessions_kept : (id : Bytes) (w : World) → (s.observe id w).1.sessions ≡ w.sessions

module _ (s : Services) (d : Bytes) (e : SessionRecord) (generation : Bytes) where
  -- The record is the one of a volume of the list, with the use of this start.
  abbrev pub Reserved : List WorkspaceRecord → WorkspaceRecord → Type 0
  Reserved rs q =
      (r : WorkspaceRecord) × In r rs × (q ≡ record r { in_use = some (use_of s d e generation) })

  -- The texts of the coming records are UTF-8.
  abbrev pub StartText : List WorkspaceRecord → Type 0
  StartText rs = Each (IsText s.coerce) rs × UseText s.coerce (some (use_of s d e generation))

  abbrev pub next : WorkspaceRecord → Option WorkspaceRecord
  next = with_use s d (use_of s d e generation)

  abbrev pub reserve_all : List WorkspaceRecord → World → Outcome (Unit {0}) × World
  reserve_all rs = write_volumes s d Mutation.reserve_use next rs

  IsText-with_use :
      (r : WorkspaceRecord) (u : Use)
      → IsText s.coerce r
      → UseText s.coerce (some u)
      → IsText s.coerce (record r { in_use = some u })
  IsText-with_use r u t k = record {
    domain_text = t.domain_text;
    volume_text = t.volume_text;
    format_text = t.format_text;
    filesystem_text = t.filesystem_text;
    state_is_text = t.state_is_text;
    attachment_text = t.attachment_text;
    use_text = k;
    pending_text = t.pending_text;
    disk_fits = t.disk_fits;
  }

  pub all-Ready :
      (rs : List WorkspaceRecord)
      → StartText rs
      → Each (Ready s d (Reserved rs) Mutation.reserve_use next) rs
  all-Ready rs (text, use_is) = Each-of (Ready s d (Reserved rs) Mutation.reserve_use next) rs ready
    where
      ready : (r : WorkspaceRecord) → In r rs → Ready s d (Reserved rs) Mutation.reserve_use next r
      ready r i q h =
          let q_is : record r { in_use = some (use_of s d e generation) } ≡ q =
            some-injective _ _ h in
          (
            ap (λ x. x.volume_id) (sym q_is),
            subst (IsText s.coerce) q_is (
                IsText-with_use r (use_of s d e generation) (Each-In (IsText s.coerce) rs text r i)
                  use_is),
            (r, i, sym q_is),
          )

  -- Every volume of the list carries the use.
  abbrev pub AllReserved : List WorkspaceRecord → World → Type 0
  AllReserved rs w = Each (λ r. Holds s d (Reserved rs) r.volume_id w) rs

  held :
      (rs qs : List WorkspaceRecord) (w : World)
      → Each (λ r. (next r ≡ none) ⊎ Holds s d (Reserved qs) r.volume_id w) rs
      → Each (λ r. Holds s d (Reserved qs) r.volume_id w) rs
  held rs qs w = Each-map _ _ rs (λ r k. elim k [ inl e ↦ cc | inr h ↦ h ])

  pub moved :
      (rs qs : List WorkspaceRecord) (w w' : World)
      → w'.workspaces ≡ w.workspaces
      → Each (λ r. Holds s d (Reserved qs) r.volume_id w) rs
      → Each (λ r. Holds s d (Reserved qs) r.volume_id w') rs
  moved rs qs w w' k =
      Each-map _ _ rs (λ r (q, l, p). (q, load_record-same d r.volume_id w w' k ∙ l, p))

  pub all_reserved :
      (rs : List WorkspaceRecord) (w : World)
      → StartText rs
      → (reserve_all rs w).0 ≡ ok tt
      → AllReserved rs (reserve_all rs w).1
  all_reserved rs w text done = held rs rs (reserve_all rs w).1 (
      write_volumes-Holds s d (Reserved rs) Mutation.reserve_use next rs w (reserve_all rs w).1
        (all-Ready rs text) (ap (λ o. (o, (reserve_all rs w).1)) done))

  -- The world's session records are the old ones, or every volume carries the use.
  abbrev pub Ordered : List WorkspaceRecord → World → World → Type 0
  Ordered rs w w' = (w'.sessions ≡ w.sessions) ⊎ AllReserved rs w'

  commit_start-Ordered :
      (rs : List WorkspaceRecord) (w : World)
      → StartText rs
      → Ordered rs w (commit_start s d e generation rs w).1
  unfolding commit_start
  commit_start-Ordered rs w text =
      then_with-leaves (Ordered rs w) (reserve_all rs w) _
        (inl (write_volumes-sessions s d (Reserved rs) Mutation.reserve_use next rs w))
        (λ _ done.
          let w1 = (reserve_all rs w).1 in
          let saved = save_record s.coerce d (as_starting s d e generation) w1 in
          let there = inr (
            moved rs rs w1 saved.1
              (save_record-Effect s.coerce d (as_starting s d e generation) w1).workspaces_kept
              (all_reserved rs w text done)) in
          then_with-leaves (Ordered rs w) saved _ there (λ _ _. there))

  -- A session is never published before its volumes are reserved: whatever becomes of the
  -- preparation of a start, once it has the locks, the session records are the ones from before, or
  -- every volume of the list loads with the use of this start, as it was otherwise. The observer
  -- leaves volumes and session records alone, and the texts are UTF-8.
  pub prepare_locked-Ordered :
      (watches : Watches s) (looks : Looks s) (rebuild : Option RebuildJournal)
      (initial : List WorkspaceRecord) (w : World)
      → StartText initial
      → Ordered initial w (prepare_locked s d e generation rebuild initial w).1
  unfolding prepare_locked
  prepare_locked-Ordered watches looks rebuild initial w text =
      then_with-leaves (Ordered initial w) (reload_session s d e w) _
        (inl (ap (λ x. x.sessions) same1))
        (λ _ _.
          then_with-leaves (Ordered initial w) (rebuild_admits s d e rebuild w1, w1) _
            (inl (ap (λ x. x.sessions) same1))
            (λ _ _.
              then_with-leaves (Ordered initial w) (reload_attachments s d e initial w1) _
                (inl (ap (λ x. x.sessions) same2))
                (λ a lists. then_with-leaves (Ordered initial w) observed _ (inl same3) (λ _ _.
                  then_with-leaves (Ordered initial w)
                    (each_ok (check_startable s d observed.1) a, observed.1) _ (inl same3)
                    (λ _ _.
                      subst
                        (λ rs. Ordered initial w (commit_start s d e generation rs observed.1).1)
                        (sym (reload_attachments-value s d w1 e initial a lists))
                        (over _ (commit_start-Ordered initial observed.1 text)))))))
    where
      w1 : World
      w1 = (reload_session s d e w).1

      same1 : w1 ≡ w
      same1 = reload_session-keeps s d w e

      w2 : World
      w2 = (reload_attachments s d e initial w1).1

      same2 : w2 ≡ w
      same2 = reload_attachments-keeps s d w1 e initial ∙ same1

      observed : Outcome (Unit {0}) × World
      observed = observed_stopped s d e.backend.object_id w2

      same3 : observed.1.sessions ≡ w.sessions
      same3 =
          ap (λ x. x.sessions) (observed_stopped-leaves s d w2 e.backend.object_id)
          ∙ looks.sessions_kept e.backend.object_id w2
          ∙ ap (λ x. x.sessions) same2

      over : (w' : World) → Ordered initial observed.1 w' → Ordered initial w w'
      over _ (inl k) = inl (k ∙ same3)
      over _ (inr k) = inr k
