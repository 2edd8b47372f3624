-- ===== src/Workspace/Batch/Finalized.antt =====
-- What the end of a deletion leaves.
use mathlib.Core.Option.{some-injective}
use boxwarden.Prelude.{
  Bytes, List, Outcome-cases, [], ap, arith, else-eq-ok, eqb_iff, eqb_refl, err, false, inl, inr,
  is_empty, none, ok, refl, same, subst, sym, true, ◌&&◌, ◌==◌, ◌∙◌, ◌∷◌, ◌≡◌, ◌⊎◌,
}
use boxwarden.Backend.{Observation, shows_absent}
use boxwarden.Ident.{parse_domain, parse_name}
use boxwarden.Ident.Names.{parse_name-eq}
use boxwarden.Services.{Services}
use boxwarden.Session.Rebuild.Registry.{require_no_rebuild}
use boxwarden.Session.Store.{
  is_deleting, load_file, load_from, load_record, load_session, remove_deleting_record_locked,
}
use boxwarden.Session.Types.{SessionRecord, SessionRecord-discrete}
use boxwarden.Workspace.Attached.{list_session_attachments}
use boxwarden.Workspace.Attached.Selected.{Each}
use boxwarden.Workspace.Batch.{
  admit_retained_volume, attached_volumes, each_ok, is_retained, write_volumes,
}
use boxwarden.Workspace.Batch.Checked.{
  Each-In, Each-map, Each-of, In, each_ok-Each, reload_attachments-passed, reload_session-passed,
}
use boxwarden.Workspace.Batch.Finalize.{check_idle, detached, finalize_locked, is_nil}
use boxwarden.Workspace.Batch.Gated.{Retained, is_retained-Retained}
use boxwarden.Workspace.Batch.Loops.{
  Holds, Kept, Kept-after, Kept-before, Ready, write_volumes-Holds, write_volumes-Kept,
}
use boxwarden.Workspace.Bindings.{Mutation}
use boxwarden.Workspace.Bindings.Step.{load_record-same}
use boxwarden.Workspace.Decode.Marshal.{IsText}
use boxwarden.Workspace.Transition.Stopped.{Watches}
use boxwarden.Workspace.Types.{WorkspaceRecord}
use boxwarden.World.{
  Dir, Fate, Registry, World, change, commit, drop_file, json_name, remove_file, sync_directory,
  synced,
}
use boxwarden.World.Files.{find_file-drop_file}
use boxwarden.World.Runs.{guard-passed, then_with-eq-ok}

removed :
    (fs : List Fate) (k : Bytes) (w w' : World)
    → commit fs (change Registry.sessions (drop_file k)) w ≡ (ok tt, w')
    → (w'.sessions ≡ drop_file k w.sessions) × (w'.workspaces ≡ w.workspaces)
removed [] k w w' h =
    let e = sym (ap (λ p. p.1) h) in (ap (λ x. x.sessions) e, ap (λ x. x.workspaces) e)
removed (Fate.durable ∷ fs) k w w' h =
    let e = sym (ap (λ p. p.1) h) in (ap (λ x. x.sessions) e, ap (λ x. x.workspaces) e)
removed (Fate.refused ∷ fs) k w w' h = let e : err ≡ ok tt = ap (λ p. p.0) h in cc
removed (Fate.unsynced ∷ fs) k w w' h = let e : err ≡ ok tt = ap (λ p. p.0) h in cc
removed (Fate.torn ∷ fs) k w w' h = let e : err ≡ ok tt = ap (λ p. p.0) h in cc

-- A name whose file is dropped loads no session.
no_session :
    (d k : Bytes) (dir : Dir) (w : World)
    → w.sessions ≡ drop_file (json_name k) dir
    → load_session d k w ≡ err
unfolding load_from load_file load_record
no_session d k dir w e = elim (Outcome-cases (parse_domain d)) [
  | inl bad ↦ rw (load_record, bad) refl
  | inr (x, p) ↦ elim (Outcome-cases (parse_name k)) [
    | inl bad ↦ rw (load_record, p, bad) refl
    | inr (n, q) ↦
        rw
          (
            load_record,
            p,
            q,
            parse_name-eq k q,
            e,
            find_file-drop_file (json_name k) (json_name k) dir,
            eqb_refl (json_name k),
          )
          refl
  ]
]

remove_deleting_record_locked-gone :
    (d : Bytes) (e : SessionRecord) (w w' : World)
    → remove_deleting_record_locked e w ≡ (ok tt, w')
    → (load_session d e.name w' ≡ err) × (w'.workspaces ≡ w.workspaces)
unfolding remove_deleting_record_locked remove_file
remove_deleting_record_locked-gone d e w w' h =
    let (_, h1) =
      guard-passed (e.version == 2 && is_deleting e.intended_state && is_empty e.start_generation) _
        h in
    let (current, _, h2) = then_with-eq-ok (load_from w.sessions e.domain e.name, w) _ h1 in
    let (_, h3) = guard-passed (same SessionRecord-discrete current e) _ h2 in
    let (dropped, kept) = removed w.fates (json_name e.name) w w' h3 in
    (no_session d e.name w.sessions w' dropped, kept)

pub sync_kept : (w w' : World) → sync_directory w ≡ (ok tt, w') → w'.workspaces ≡ w.workspaces
unfolding sync_directory
sync_kept w w' h = synced_kept w.fates w w' h
  where
    synced_kept :
        (fs : List Fate) (w w' : World) → synced fs w ≡ (ok tt, w') → w'.workspaces ≡ w.workspaces
    synced_kept [] w w' h = ap (λ p. p.1.workspaces) (sym h)
    synced_kept (Fate.durable ∷ fs) w w' h = ap (λ p. p.1.workspaces) (sym h)
    synced_kept (Fate.refused ∷ fs) w w' h = let e : err ≡ ok tt = ap (λ p. p.0) h in cc
    synced_kept (Fate.unsynced ∷ fs) w w' h = let e : err ≡ ok tt = ap (λ p. p.0) h in cc
    synced_kept (Fate.torn ∷ fs) w w' h = let e : err ≡ ok tt = ap (λ p. p.0) h in cc

module _ (s : Services) (d : Bytes) where
  -- The record is the one of a volume of the list, but for the attachment, which is gone.
  abbrev pub Detached : List WorkspaceRecord → WorkspaceRecord → Type 0
  Detached rs q = (r : WorkspaceRecord) × In r rs × (q ≡ record r { attachment = none })

  IsText-detached :
      (r : WorkspaceRecord) → IsText s.coerce r → IsText s.coerce (record r { attachment = none })
  IsText-detached r t = record {
    domain_text = t.domain_text;
    volume_text = t.volume_text;
    format_text = t.format_text;
    filesystem_text = t.filesystem_text;
    state_is_text = t.state_is_text;
    attachment_text = tt;
    use_text = t.use_text;
    pending_text = t.pending_text;
    disk_fits = t.disk_fits;
  }

  detached-Ready :
      (rs : List WorkspaceRecord) (r : WorkspaceRecord)
      → In r rs
      → IsText s.coerce r
      → Ready s d (Detached rs) Mutation.detach (detached s d) r
  detached-Ready rs r i t q h =
      let q_is : record r { attachment = none } ≡ q = some-injective _ _ h in
      (
        ap (λ x. x.volume_id) (sym q_is),
        subst (IsText s.coerce) q_is (IsText-detached r t),
        (r, i, sym q_is),
      )

  idle-facts :
      (e : SessionRecord) (w : World) (r : WorkspaceRecord)
      → check_idle s d e w r ≡ ok tt
      → Retained s d e r × (admit_retained_volume s d r w ≡ ok tt)
  unfolding check_idle
  idle-facts e w r h =
      let (idle, admitted) = else-eq-ok (is_retained s d e r) _ h in
      (is_retained-Retained s d e r idle, admitted)

  nil-eq : (rs : List WorkspaceRecord) → is_nil s d rs ≡ true → rs ≡ []
  nil-eq [] h = refl
  nil-eq (r ∷ rs) h = cc

  pub lists-same :
      (e : SessionRecord) (w w' : World)
      → w'.workspaces ≡ w.workspaces
      → attached_volumes s d e w' ≡ attached_volumes s d e w
  unfolding list_session_attachments
  lists-same e w w' k = rw k refl

  -- What a deletion that is finalized has checked, and the run of its writes.
  pub record Finishes (e : SessionRecord) (initial : List WorkspaceRecord) (w w' : World)
      : Type 0 where
    pub loads : load_session d e.name w ≡ ok e
    pub no_rebuild : require_no_rebuild d e.name w ≡ ok tt
    pub lists : attached_volumes s d e w ≡ ok initial
    pub seen : Observation
    pub observes : (s.observe e.backend.object_id w).0 ≡ ok seen
    pub absent : (seen.object_id ≡ e.backend.object_id) × (seen.exists ≡ false)
    pub idle : Each (Retained s d e) initial
    pub between : World
    pub wrote :
        write_volumes s d Mutation.detach (detached s d) initial (s.observe e.backend.object_id w).1
        ≡ (ok tt, between)
    pub volumes_kept : w'.workspaces ≡ between.workspaces
    pub none_left : attached_volumes s d e w' ≡ ok []
    pub record_gone : load_session d e.name w' ≡ err

  -- The end of a deletion, once it has the locks, succeeds only if the session's record and list of
  -- volumes are unchanged, there is no rebuild, its backend object is seen absent and every volume
  -- is idle; then no volume is attached to the session any more, and its name loads no session.
  pub finalize_locked-Finishes :
      (e : SessionRecord) (initial : List WorkspaceRecord) (w w' : World)
      → finalize_locked s d e initial w ≡ (ok tt, w')
      → Finishes e initial w w'
  unfolding finalize_locked shows_absent
  finalize_locked-Finishes e initial w w' h =
      let (loads_e, h1) = reload_session-passed s d e _ h in
      let (_, free, h2) = then_with-eq-ok (require_no_rebuild d e.name w, w) _ h1 in
      let (lists_e, h3) = reload_attachments-passed s d e initial _ h2 in
      let (o, observed, h4) = then_with-eq-ok (s.observe e.backend.object_id w) _ h3 in
      let w1 = (s.observe e.backend.object_id w).1 in
      let (gone, h5) = guard-passed (shows_absent e.backend.object_id o) _ h4 in
      let (_, checked, h6) = then_with-eq-ok (each_ok (check_idle s d e w1) initial, w1) _ h5 in
      let step = write_volumes s d Mutation.detach (detached s d) initial w1 in
      let (_, wrote, h7) = then_with-eq-ok step _ h6 in
      let w2 = step.1 in
      let (left, listed, h8) = then_with-eq-ok (attached_volumes s d e w2, w2) _ h7 in
      let (nothing, h9) = guard-passed (is_nil s d left) _ h8 in
      let (_, synced_ok, h10) = then_with-eq-ok (sync_directory w2) _ h9 in
      let w3 = (sync_directory w2).1 in
      let (record_off, kept3) = remove_deleting_record_locked-gone d e w3 w' h10 in
      let kept2 : w'.workspaces ≡ w2.workspaces =
        kept3 ∙ sync_kept w2 w3 (ap (λ x. (x, w3)) synced_ok) in
      record {
        loads = loads_e;
        no_rebuild = free;
        lists = lists_e;
        seen = o;
        observes = observed;
        absent = ((eqb_iff o.object_id e.backend.object_id).0 (ground arith), ground arith);
        idle =
            Each-map _ (Retained s d e) initial (λ r k. (idle-facts e w1 r k).0)
              (each_ok-Each (check_idle s d e w1) initial checked);
        between = w2;
        wrote = ap (λ x. (x, w2)) wrote;
        volumes_kept = kept2;
        none_left = lists-same e w2 w' kept2 ∙ listed ∙ ap ok (nil-eq left nothing);
        record_gone = record_off;
      }

  -- The end of a deletion that succeeds, once it has the locks, leaves each volume of the session
  -- loading without its attachment, as it was in the list otherwise, and whatever else loads, loads
  -- as before. The observer leaves the volumes alone, and the texts are UTF-8.
  pub finalize_locked-Detached :
      (watches : Watches s) (e : SessionRecord) (initial : List WorkspaceRecord) (w w' : World)
      → Each (IsText s.coerce) initial
      → finalize_locked s d e initial w ≡ (ok tt, w')
      → Each (λ r. Holds s d (Detached initial) r.volume_id w') initial
        × ((v : Bytes) → Kept s d (Detached initial) v w w')
  finalize_locked-Detached watches e initial w w' text h =
      let f = finalize_locked-Finishes e initial w w' h in
      let w1 = (s.observe e.backend.object_id w).1 in
      let ready =
        Each-of (Ready s d (Detached initial) Mutation.detach (detached s d)) initial
          (λ r i. detached-Ready initial r i (Each-In (IsText s.coerce) initial text r i)) in
      (
        Each-map _ _ initial (λ r k. held f.between r f.volumes_kept k)
            (write_volumes-Holds s d (Detached initial) Mutation.detach (detached s d) initial w1
              f.between ready f.wrote),
        λ v. Kept-before s d (Detached initial) v w f.between w' f.volumes_kept (
            Kept-after s d (Detached initial) v w w1 f.between
              (watches.volumes_kept e.backend.object_id w)
              (subst (λ x. Kept s d (Detached initial) v w1 x) (ap (λ p. p.1) f.wrote)
                (write_volumes-Kept s d (Detached initial) Mutation.detach (detached s d) initial w1
                  ready v))),
      )
    where
      held :
          (w2 : World) (r : WorkspaceRecord)
          → w'.workspaces ≡ w2.workspaces
          → (detached s d r ≡ none) ⊎ Holds s d (Detached initial) r.volume_id w2
          → Holds s d (Detached initial) r.volume_id w'
      held w2 r k (inl e) = cc
      held w2 r k (inr (q, l, p)) = (q, load_record-same d r.volume_id w2 w' k ∙ l, p)
