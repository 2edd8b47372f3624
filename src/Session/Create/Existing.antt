-- ===== src/Session/Create/Existing.antt =====
-- Every way through a creation ends in the session that was asked for.
use mathlib.Core.Option.{some-injective}
use boxwarden.Prelude.{
  Bool, Bool-cases, Bytes, Option, Option-cases, [], ap, arith, bind-eq-ok, eqb, eqb_iff, false,
  inl, inr, is_empty, none, not, ok, ok-injective, refl, same-eq, some, subst, sym, true, ◌&&◌,
  ◌==◌, ◌||◌, ◌∙◌, ◌∷◌, ◌≡◌, ◌⊎◌,
}
use boxwarden.Session.Create.{
  Creating, Golden, check_intent, create_existing, create_found, create_locked, is_requested,
  load_existing, require_stopped_golden, reserve_identity, reserve_intent, select_golden,
}
use boxwarden.Session.Create.Created.{
  Created, Goldens, Requested, create_again-Created, create_stopped-Created,
  reconcile_creating-Created,
}
use boxwarden.Session.Create.Fresh.{reserve_identity-Fresh}
use boxwarden.Session.Decode.{is_stopped}
use boxwarden.Session.Rebuild.Registry.{require_no_rebuild}
use boxwarden.Session.Store.{is_creating, load_record}
use boxwarden.Session.Store.Atomic.{load_record-identity}
use boxwarden.Session.Types.{Mode, Mode-discrete, SessionRecord}
use boxwarden.World.{World, find_file, json_name}
use boxwarden.World.Runs.{fail-never, guard-passed, if-runs, then_with-eq-ok}

module _ (s : Creating) (d name : Bytes) (mode : Mode) (revision digest : Bytes) where
  requested_base :
      (r : SessionRecord)
      → (is_empty revision || eqb r.golden_revision revision) ≡ true
      → (revision ≡ []) ⊎ (r.golden_revision ≡ revision)
  requested_base r h = elim (Bool-cases (eqb r.golden_revision revision)) [
    | inl e ↦ inr ((eqb_iff r.golden_revision revision).0 e)
    | inr e ↦ inl (nothing revision (ground arith))
  ]
    where
      nothing : (b : Bytes) → is_empty b ≡ true → b ≡ []
      nothing [] h = refl
      nothing (x ∷ xs) h = cc

  is_requested-Requested :
      (r : SessionRecord) (w : World)
      → load_record d name w ≡ ok r
      → is_requested s d r mode revision digest ≡ true
      → Requested s d name mode revision digest r
  unfolding is_requested
  is_requested-Requested r w loads h =
      let (domain_of, name_of) = load_record-identity d name r w loads in
      record {
        domain_is = domain_of;
        name_is = name_of;
        mode_is = same-eq Mode-discrete r.mode mode (ground arith);
        base_is = requested_base r (ground arith);
        digest_is = (eqb_iff r.recipe_intent_digest digest).0 (ground arith);
      }

  create_existing-Created :
      (fresh_only : Bool) (r q : SessionRecord) (v w w' : World)
      → load_record d name v ≡ ok r
      → create_existing s d name mode revision digest fresh_only r w ≡ (ok q, w')
      → Created s d name mode revision digest q w'
  unfolding create_existing
  create_existing-Created fresh_only r q v w w' loads h =
      let (tests, h1) =
        guard-passed (not fresh_only && is_requested s d r mode revision digest) _ h in
      let asked = is_requested-Requested r v loads (ground arith) in
      elim (if-runs (is_stopped r.intended_state) _ _ h1) [
        | inl (stops, h2) ↦
            create_stopped-Created s d name mode revision digest r q w w' asked stops h2
        | inr (_, h2) ↦ elim (if-runs (is_creating r.intended_state) _ _ h2) [
          | inl (creates, h3) ↦
              create_again-Created s d name mode revision digest r q w w' asked creates h3
          | inr (_, h3) ↦ fail-never h3 (Created s d name mode revision digest q w')
        ]
      ]

  -- The base of a new session is the one that was asked for.
  selected_base :
      (goldens : Goldens s) (w : World) (g : Golden)
      → select_golden s d revision w ≡ ok g
      → (revision ≡ []) ⊎ (g.revision ≡ revision)
  selected_base goldens w g h = pick revision h
    where
      pick : (b : Bytes) → select_golden s d b w ≡ ok g → (b ≡ []) ⊎ (g.revision ≡ b)
      pick [] h = inl refl
      pick (x ∷ xs) h = inr (goldens.revision_is (x ∷ xs) w g h)

  reserve_intent-Requested :
      (goldens : Goldens s) (r : SessionRecord) (w w' : World)
      → reserve_intent s d name mode revision digest w ≡ (ok r, w')
      → Requested s d name mode revision digest r × ((r.version == 1) ≡ false)
  unfolding reserve_intent
  reserve_intent-Requested goldens r w w' h =
      let (_, _, h1) = then_with-eq-ok (s.acquire_golden w) _ h in
      let w1 = (s.acquire_golden w).1 in
      let (g, selects, h2) = then_with-eq-ok (select_golden s d revision w1, w1) _ h1 in
      let (_, _, h3) = then_with-eq-ok (require_stopped_golden s d g w1) _ h2 in
      let w2 = (require_stopped_golden s d g w1).1 in
      let step = reserve_identity s d name mode g.revision digest w2 in
      let (x, ran, h4) = then_with-eq-ok step _ h3 in
      let f =
        reserve_identity-Fresh s d name mode g.revision digest x w2 step.1
          (ap (λ o. (o, step.1)) ran) in
      let (_, _, last) = then_with-eq-ok (s.release_golden step.1) _ h4 in
      let r_is = sym (ok-injective x r (ap (λ p. p.0) last)) ∙ f.record_is in
      subst (λ y. Requested s d name mode revision digest y × ((y.version == 1) ≡ false)) (sym r_is)
        (
          record {
            domain_is = refl;
            name_is = refl;
            mode_is = refl;
            base_is = selected_base goldens w1 g selects;
            digest_is = refl;
          },
          refl,
        )

  existing_loads :
      (w : World) (r : SessionRecord)
      → load_existing d name w ≡ ok (some r)
      → load_record d name w ≡ ok r
  unfolding load_existing
  existing_loads w r h = elim (Option-cases (find_file (json_name name) w.sessions)) [
    | inl e ↦ cc (rw (load_existing, e) at h)
    | inr (_, e) ↦
        let (x, loads, last) = bind-eq-ok (load_record d name w) _ (rw (load_existing, e) at h) in
        loads ∙ ap ok (some-injective _ _ (ok-injective _ _ last))
  ]

  create_found-Created :
      (goldens : Goldens s) (fresh_only : Bool) (found : Option SessionRecord) (q : SessionRecord)
      (v w w' : World)
      → load_existing d name v ≡ ok found
      → create_found s d name mode revision digest fresh_only found w ≡ (ok q, w')
      → Created s d name mode revision digest q w'
  unfolding create_found
  create_found-Created goldens fresh_only (some r) q v w w' loads h =
      create_existing-Created fresh_only r q v w w' (existing_loads v r loads) h
  create_found-Created goldens fresh_only none q v w w' loads h =
      let (r, ran, h1) = then_with-eq-ok (reserve_intent s d name mode revision digest w) _ h in
      let w1 = (reserve_intent s d name mode revision digest w).1 in
      let (asked, version) = reserve_intent-Requested goldens r w w1 (ap (λ o. (o, w1)) ran) in
      reconcile_creating-Created s d name mode revision digest r q w1 w' asked version h1

  -- A creation that succeeds, once it has the lock, new or taken up again, returns a stopped session
  -- of the domain with the name, mode and recipe intent that were asked for, and the base, if one
  -- was; its backend object was seen there and stopped, and it is what the name loads. A base that
  -- is loaded for a revision is of this revision.
  pub create_locked-Created :
      (goldens : Goldens s) (fresh_only : Bool) (q : SessionRecord) (w w' : World)
      → create_locked s d name mode revision digest fresh_only w ≡ (ok q, w')
      → Created s d name mode revision digest q w'
  unfolding create_locked
  create_locked-Created goldens fresh_only q w w' h =
      let (_, _, h1) = then_with-eq-ok (check_intent s d digest w) _ h in
      let (_, _, h2) = then_with-eq-ok (require_no_rebuild d name _, _) _ h1 in
      let (found, loads, h3) = then_with-eq-ok (load_existing d name _, _) _ h2 in
      create_found-Created goldens fresh_only found q _ _ w' loads h3
