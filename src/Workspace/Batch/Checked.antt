-- ===== src/Workspace/Batch/Checked.antt =====
-- What a batch that goes on has checked, step by step, and the loops over its volumes.
use boxwarden.Prelude.{
  Bytes, List, Outcome, [], ap, bind-eq-ok, guard, ok, ok-injective, refl, same, same-eq, subst,
  sym, ◌∙◌, ◌∷◌, ◌≡◌,
}
use boxwarden.Services.{Services}
use boxwarden.Session.Store.{load_session}
use boxwarden.Session.Types.{SessionRecord, SessionRecord-discrete}
use boxwarden.Workspace.Attached.Selected.{Each}
use boxwarden.Workspace.Batch.{
  Records-discrete, attached_volumes, each_ok, reload_attachments, reload_session,
}
use boxwarden.Workspace.Transition.{observed_stopped}
use boxwarden.Workspace.Transition.Stopped.{SeenStopped, observed_stopped-SeenStopped}
use boxwarden.Workspace.Types.{WorkspaceRecord}
use boxwarden.World.{M, World, then_with}
use boxwarden.World.Runs.{guard-passed, guard_last, then_with-eq-ok, then_with-leaves}

pub data In (r : WorkspaceRecord) : List WorkspaceRecord → Type 0 where
  first : {rs : List WorkspaceRecord} → In r (r ∷ rs)
  later : {q : WorkspaceRecord} {rs : List WorkspaceRecord} → In r rs → In r (q ∷ rs)

pub Each-of :
    (P : WorkspaceRecord → Type 0) (rs : List WorkspaceRecord)
    → ((r : WorkspaceRecord) → In r rs → P r)
    → Each P rs
Each-of P [] h = tt
Each-of P (r ∷ rs) h = (h r In.first, Each-of P rs (λ q i. h q (In.later i)))

pub Each-In :
    (P : WorkspaceRecord → Type 0) (rs : List WorkspaceRecord)
    → Each P rs
    → (r : WorkspaceRecord) → In r rs
    → P r
Each-In P [] _ r i = elim i [ ]
Each-In P (r ∷ rs) (p, _) _ In.first = p
Each-In P (q ∷ rs) (_, h) r (In.later i) = Each-In P rs h r i

pub Each-map :
    (P Q : WorkspaceRecord → Type 0) (rs : List WorkspaceRecord)
    → ((r : WorkspaceRecord) → P r → Q r)
    → Each P rs
    → Each Q rs
Each-map P Q [] f h = tt
Each-map P Q (r ∷ rs) f (p, h) = (f r p, Each-map P Q rs f h)

pub each_ok-Each :
    (f : WorkspaceRecord → Outcome (Unit {0})) (rs : List WorkspaceRecord)
    → each_ok f rs ≡ ok tt
    → Each (λ r. f r ≡ ok tt) rs
unfolding each_ok
each_ok-Each f [] h = tt
each_ok-Each f (r ∷ rs) h =
    let (_, now, more) = bind-eq-ok (f r) _ h in (now, each_ok-Each f rs more)

pub Each-each_ok :
    (f : WorkspaceRecord → Outcome (Unit {0})) (rs : List WorkspaceRecord)
    → Each (λ r. f r ≡ ok tt) rs
    → each_ok f rs ≡ ok tt
unfolding each_ok
Each-each_ok f [] h = refl
Each-each_ok f (r ∷ rs) (now, more) = rw now (Each-each_ok f rs more)

module _ (s : Services) (d : Bytes) {B : Type 0} {b : B} {w w' : World} where
  pub reload_session-passed :
      (e : SessionRecord) (rest : Unit {0} → M B)
      → then_with (reload_session s d e w) rest ≡ (ok b, w')
      → (load_session d e.name w ≡ ok e) × (rest tt w ≡ (ok b, w'))
  unfolding reload_session
  reload_session-passed e rest h =
      let (_, went, more) = then_with-eq-ok (reload_session s d e w) rest h in
      let w1 = (reload_session s d e w).1 in
      let (current, loads, last) =
        then_with-eq-ok (load_session d e.name w, w) _ (ap (λ o. (o, w1)) went) in
      let (same_record, w_is) = guard_last (same SessionRecord-discrete current e) last in
      (
        loads ∙ ap ok (same-eq SessionRecord-discrete current e same_record),
        subst (λ x. rest tt x ≡ (ok b, w')) (sym w_is) more,
      )

  pub reload_attachments-passed :
      (e : SessionRecord) (initial : List WorkspaceRecord) (rest : List WorkspaceRecord → M B)
      → then_with (reload_attachments s d e initial w) rest ≡ (ok b, w')
      → (attached_volumes s d e w ≡ ok initial) × (rest initial w ≡ (ok b, w'))
  unfolding reload_attachments
  reload_attachments-passed e initial rest h =
      let (a, went, more) = then_with-eq-ok (reload_attachments s d e initial w) rest h in
      let w1 = (reload_attachments s d e initial w).1 in
      let (x, lists, h1) =
        then_with-eq-ok (attached_volumes s d e w, w) _ (ap (λ o. (o, w1)) went) in
      let (same_list, last) = guard-passed (same Records-discrete initial x) _ h1 in
      let x_is : initial ≡ x = same-eq Records-discrete initial x same_list in
      let a_is : x ≡ a = ok-injective x a (ap (λ p. p.0) last) in
      (
        lists ∙ ap ok (sym x_is),
        subst (λ y. rest initial y ≡ (ok b, w')) (sym (ap (λ p. p.1) last))
            (subst (λ y. rest y w1 ≡ (ok b, w')) (sym (x_is ∙ a_is)) more),
      )

  pub observed_stopped-passed :
      (object_id : Bytes) (rest : Unit {0} → M B)
      → then_with (observed_stopped s d object_id w) rest ≡ (ok b, w')
      → SeenStopped s d object_id w × (rest tt (s.observe object_id w).1 ≡ (ok b, w'))
  observed_stopped-passed object_id rest h =
      let (_, went, more) = then_with-eq-ok (observed_stopped s d object_id w) rest h in
      let w1 = (observed_stopped s d object_id w).1 in
      let (seen, w_is) = observed_stopped-SeenStopped s d object_id w w1 (ap (λ o. (o, w1)) went) in
      (seen, subst (λ x. rest tt x ≡ (ok b, w')) w_is more)

-- The steps that only look leave the world as it was.
module _ (s : Services) (d : Bytes) (w : World) where
  pub reload_session-keeps : (e : SessionRecord) → (reload_session s d e w).1 ≡ w
  unfolding reload_session
  reload_session-keeps e =
      then_with-leaves (λ x. x ≡ w) (load_session d e.name w, w) _ refl (λ _ _. refl)

  pub reload_attachments-keeps :
      (e : SessionRecord) (initial : List WorkspaceRecord)
      → (reload_attachments s d e initial w).1 ≡ w
  unfolding reload_attachments
  reload_attachments-keeps e initial =
      then_with-leaves (λ x. x ≡ w) (attached_volumes s d e w, w) _ refl
        (λ a _.
          then_with-leaves (λ x. x ≡ w) (guard (same Records-discrete initial a), w) _ refl
            (λ _ _. refl))

  pub reload_attachments-value :
      (e : SessionRecord) (initial a : List WorkspaceRecord)
      → (reload_attachments s d e initial w).0 ≡ ok a
      → a ≡ initial
  unfolding reload_attachments
  reload_attachments-value e initial a h =
      let w1 = (reload_attachments s d e initial w).1 in
      let (x, _, h1) = then_with-eq-ok (attached_volumes s d e w, w) _ (ap (λ o. (o, w1)) h) in
      let (same_list, last) = guard-passed (same Records-discrete initial x) _ h1 in
      sym (same-eq Records-discrete initial x same_list ∙ ok-injective x a (ap (λ p. p.0) last))

  pub observed_stopped-leaves :
      (object_id : Bytes) → (observed_stopped s d object_id w).1 ≡ (s.observe object_id w).1
  unfolding observed_stopped
  observed_stopped-leaves object_id =
      then_with-leaves (λ x. x ≡ (s.observe object_id w).1) (s.observe object_id w) _ refl
        (λ _ _. refl)
