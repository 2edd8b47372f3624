-- ===== src/Workspace/Batch/Loops.antt =====
-- What a loop of writes leaves of the registry, also when it fails on the way.
use boxwarden.Prelude.{
  Bytes, List, Option, Option-cases, Outcome, [], ap, inl, inr, none, ok, refl, some, subst, sym,
  ◌∙◌, ◌∷◌, ◌≡◌, ◌⊎◌,
}
use boxwarden.Services.{Services}
use boxwarden.Workspace.Attached.Selected.{Each}
use boxwarden.Workspace.Batch.{write_volumes}
use boxwarden.Workspace.Bindings.{Mutation, load_record, save_record_transition}
use boxwarden.Workspace.Bindings.Load.{save-Effect}
use boxwarden.Workspace.Bindings.Step.{
  load_record-same, load_record-save_record_transition, save-loads,
}
use boxwarden.Workspace.Decode.Marshal.{IsText}
use boxwarden.Workspace.Types.{WorkspaceRecord}
use boxwarden.World.{World}
use boxwarden.World.Runs.{then_with-cases, then_with-eq-ok}

module _ (s : Services) (d : Bytes) (P : WorkspaceRecord → Type 0) where
  -- The volume loads a record with the property.
  abbrev pub Holds : Bytes → World → Type 0
  Holds v w = (q : WorkspaceRecord) × (load_record d v w ≡ ok q) × P q

  -- The volume loads as before, or loads a record with the property.
  abbrev pub Kept : Bytes → World → World → Type 0
  Kept v w w' = (load_record d v w' ≡ load_record d v w) ⊎ Holds v w'

  Kept-trans : (v : Bytes) (w w1 w' : World) → Kept v w w1 → Kept v w1 w' → Kept v w w'
  Kept-trans v w w1 w' k (inr h) = inr h
  Kept-trans v w w1 w' (inl e) (inl f) = inl (f ∙ e)
  Kept-trans v w w1 w' (inr (q, l, p)) (inl f) = inr (q, f ∙ l, p)

  Holds-Kept : (v : Bytes) (w w' : World) → Kept v w w' → Holds v w → Holds v w'
  Holds-Kept v w w' (inl f) (q, l, p) = (q, f ∙ l, p)
  Holds-Kept v w w' (inr h) _ = h

  -- Before the first world, the volumes stayed.
  pub Kept-after :
      (v : Bytes) (w w1 w2 : World) → w1.workspaces ≡ w.workspaces → Kept v w1 w2 → Kept v w w2
  Kept-after v w w1 w2 e (inl k) = inl (k ∙ load_record-same d v w w1 e)
  Kept-after v w w1 w2 e (inr k) = inr k

  -- Behind the last world, too.
  pub Kept-before :
      (v : Bytes) (w w1 w2 : World) → w2.workspaces ≡ w1.workspaces → Kept v w w1 → Kept v w w2
  Kept-before v w w1 w2 e (inl k) = inl (load_record-same d v w1 w2 e ∙ k)
  Kept-before v w w1 w2 e (inr (q, l, p)) = inr (q, load_record-same d v w1 w2 e ∙ l, p)

  module _ (m : Mutation) (next : WorkspaceRecord → Option WorkspaceRecord) where
    -- What is written for a volume is a record of this volume, a text, and has the property.
    abbrev pub Ready : WorkspaceRecord → Type 0
    Ready r =
        (q : WorkspaceRecord)
        → next r ≡ some q
        → (q.volume_id ≡ r.volume_id) × IsText s.coerce q × P q

    abbrev save : WorkspaceRecord → World → Outcome (Unit {0}) × World
    save q = save_record_transition s.exports d q m [] s.coerce

    abbrev run : List WorkspaceRecord → World → Outcome (Unit {0}) × World
    run rs = write_volumes s d m next rs

    save-Kept :
        (q : WorkspaceRecord) (w : World)
        → IsText s.coerce q
        → P q
        → (v : Bytes) → Kept v w (save q w).1
    save-Kept q w t p v = elim (save-loads s.exports d q m [] s.coerce w t v) [
      | inl e ↦ inl e
      | inr (_, back) ↦ inr (q, back, p)
    ]

    -- Whatever becomes of the loop, every volume loads as before or with the property.
    pub write_volumes-Kept :
        (rs : List WorkspaceRecord) (w : World)
        → Each Ready rs
        → (v : Bytes) → Kept v w (run rs w).1
    unfolding write_volumes
    write_volumes-Kept [] w h v = inl refl
    write_volumes-Kept (r ∷ rs) w (now, h) v = elim (Option-cases (next r)) [
      | inl e ↦ rw (write_volumes, e) (write_volumes-Kept rs w h v)
      | inr (q, e) ↦
          let (_, t, p) = now q e in
          let step = save-Kept q w t p v in
          elim (then_with-cases (save q w) (λ _. run rs)) [
            | inl (_, x) ↦ rw (write_volumes, e, x) step
            | inr (_, _, x) ↦
                rw (write_volumes, e, x)
                  (Kept-trans v w (save q w).1 _ step (write_volumes-Kept rs (save q w).1 h v))
          ]
    ]

    pub write_volumes-sessions :
        (rs : List WorkspaceRecord) (w : World) → (run rs w).1.sessions ≡ w.sessions
    unfolding write_volumes
    write_volumes-sessions [] w = refl
    write_volumes-sessions (r ∷ rs) w = elim (Option-cases (next r)) [
      | inl e ↦ rw (write_volumes, e) (write_volumes-sessions rs w)
      | inr (q, e) ↦
          let kept = (save-Effect s.exports d q m [] s.coerce w).sessions_kept in
          elim (then_with-cases (save q w) (λ _. run rs)) [
            | inl (_, x) ↦ rw (write_volumes, e, x) kept
            | inr (_, _, x) ↦
                rw (write_volumes, e, x) (write_volumes-sessions rs (save q w).1 ∙ kept)
          ]
    ]

    -- Behind a loop that succeeds, every volume that it did not pass over has the property.
    pub write_volumes-Holds :
        (rs : List WorkspaceRecord) (w w' : World)
        → Each Ready rs
        → run rs w ≡ (ok tt, w')
        → Each (λ r. (next r ≡ none) ⊎ Holds r.volume_id w') rs
    unfolding write_volumes
    write_volumes-Holds [] w w' h done = tt
    write_volumes-Holds (r ∷ rs) w w' (now, h) done = elim (Option-cases (next r)) [
      | inl e ↦ (inl e, write_volumes-Holds rs w w' h (rw (write_volumes, e) at done))
      | inr (q, e) ↦
          let (named, t, p) = now q e in
          let (_, saved, later) = then_with-eq-ok (save q w) _ (rw (write_volumes, e) at done) in
          let w1 = (save q w).1 in
          let (back, _) =
            load_record-save_record_transition s.exports d q m [] s.coerce w t saved in
          let here : Holds r.volume_id w1 =
            (q, ap (λ y. load_record d y w1) (sym named) ∙ back, p) in
          let stays : Kept r.volume_id w1 w' =
            subst (λ x. Kept r.volume_id w1 x) (ap (λ x. x.1) later)
              (write_volumes-Kept rs w1 h r.volume_id) in
          (inr (Holds-Kept r.volume_id w1 w' stays here), write_volumes-Holds rs w1 w' h later)
    ]
