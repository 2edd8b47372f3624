-- ===== src/Session/Create/Created.antt =====
-- What a creation that succeeds promises.
-- The base that is loaded for a revision is the one of this name, as internal/golden/register.go
-- loads it.
use boxwarden.Prelude.{
  Bytes, [], ap, arith, eqb_iff, false, inl, inr, is_empty, ok, ok-injective, refl, subst, sym,
  true, ◌&&◌, ◌==◌, ◌∙◌, ◌≡◌, ◌⊎◌,
}
use boxwarden.Backend.{Observation, is_exact, is_stopped_object}
use boxwarden.Session.Create.{
  Creating, Golden, as_created, at_rest, check_intent, create_again, create_stopped, ensure_cloned,
  has_creating_identity, persist_again, reconcile_creating,
}
use boxwarden.Session.Decode.{is_stopped}
use boxwarden.Session.Stop.{observe_exact}
use boxwarden.Session.Store.{is_creating, load_record, save_record, upgrade_record_for_store}
use boxwarden.Session.Store.Atomic.{load_record-save_record}
use boxwarden.Session.Types.{Mode, SessionRecord}
use boxwarden.World.{World}
use boxwarden.World.Runs.{guard-passed, guard_last, then_with-eq-ok}

pub record Goldens (s : Creating) : Type 0 where
  pub revision_is :
      (revision : Bytes) (w : World) (g : Golden)
      → s.load_revision revision w ≡ ok g
      → g.revision ≡ revision

-- The upgrade of a record keeps what a session is.
record Same (q r : SessionRecord) : Type 0 where
  pub domain_is : q.domain ≡ r.domain
  pub name_is : q.name ≡ r.name
  pub mode_is : q.mode ≡ r.mode
  pub intent_is : q.intended_state ≡ r.intended_state
  pub backend_is : q.backend ≡ r.backend
  pub base_is : q.golden_revision ≡ r.golden_revision
  pub digest_is : q.recipe_intent_digest ≡ r.recipe_intent_digest

upgrade-Same : (r : SessionRecord) → Same (upgrade_record_for_store r) r
unfolding upgrade_record_for_store
upgrade-Same r = record {
  domain_is = ground arith;
  name_is = ground arith;
  mode_is = ground arith;
  intent_is = ground arith;
  backend_is = ground arith;
  base_is = ground arith;
  digest_is = ground arith;
}

-- A creating record with a base is of the second version once it has been saved.
upgraded_version :
    (r : SessionRecord)
    → is_empty r.golden_revision ≡ false
    → is_creating r.intended_state ≡ true
    → ((upgrade_record_for_store r).version == 1) ≡ false
unfolding upgrade_record_for_store
upgraded_version r h k = ground arith

module _ (s : Creating) (d name : Bytes) (mode : Mode) (revision digest : Bytes) where
  -- The record is of the session that was asked for.
  pub record Requested (r : SessionRecord) : Type 0 where
    pub domain_is : r.domain ≡ d
    pub name_is : r.name ≡ name
    pub mode_is : r.mode ≡ mode
    pub base_is : (revision ≡ []) ⊎ (r.golden_revision ≡ revision)
    pub digest_is : r.recipe_intent_digest ≡ digest

  -- The backend object was seen there and stopped.
  pub record AtRest (object_id : Bytes) : Type 0 where
    pub world : World
    pub answer : Observation
    pub observes : (s.outside.observe object_id world).0 ≡ ok answer
    pub object_is : answer.object_id ≡ object_id
    pub is_there : answer.exists ≡ true
    pub state_is : is_stopped_object answer.state ≡ true

  pub record Created (q : SessionRecord) (w : World) : Type 0 where
    pub requested : Requested q
    pub stopped : is_stopped q.intended_state ≡ true
    pub on_record : load_record d name w ≡ ok q
    pub at_rest_seen : AtRest q.backend.object_id

  seen_exact :
      (object_id : Bytes) (w : World) (o : Observation)
      → (s.outside.observe object_id w).0 ≡ ok o
      → is_exact object_id o ≡ true
      → (o.exists && is_stopped_object o.state) ≡ true
      → AtRest object_id
  unfolding is_exact
  seen_exact object_id w o e h k = record {
    world = w;
    answer = o;
    observes = e;
    object_is = (eqb_iff o.object_id object_id).0 (ground arith);
    is_there = ground arith;
    state_is = ground arith;
  }

  at_rest-AtRest :
      (object_id : Bytes) (w : World) → (at_rest s d object_id w).0 ≡ ok tt → AtRest object_id
  unfolding at_rest observe_exact
  at_rest-AtRest object_id w h =
      let w' = (at_rest s d object_id w).1 in
      let (o, exact, h1) =
        then_with-eq-ok (observe_exact s.outside d object_id w) _ (ap (λ x. (x, w')) h) in
      let w1 = (observe_exact s.outside d object_id w).1 in
      let (x, seen, h2) =
        then_with-eq-ok (s.outside.observe object_id w) _ (ap (λ y. (y, w1)) exact) in
      let (is_it, last) = guard-passed (is_exact object_id x) _ h2 in
      let x_is : x ≡ o = ok-injective x o (ap (λ p. p.0) last) in
      let (rests, _) = guard_last (o.exists && is_stopped_object o.state) h1 in
      seen_exact object_id w o (seen ∙ ap ok x_is)
        (subst (λ y. is_exact object_id y ≡ true) x_is is_it) rests

  not_upgraded :
      (r : SessionRecord)
      → (r.version == 1) ≡ false
      → upgrade_record_for_store (as_created s d r) ≡ as_created s d r
  unfolding upgrade_record_for_store
  not_upgraded r h = ground arith

  pub reconcile_creating-Created :
      (r q : SessionRecord) (w w' : World)
      → Requested r
      → (r.version == 1) ≡ false
      → reconcile_creating s d r w ≡ (ok q, w')
      → Created q w'
  unfolding reconcile_creating
  reconcile_creating-Created r q w w' asked version h =
      let (_, _, h1) = then_with-eq-ok (check_intent s d r.recipe_intent_digest w) _ h in
      let (o, _, h2) = then_with-eq-ok (observe_exact s.outside d r.backend.object_id _) _ h1 in
      let (_, _, h3) = then_with-eq-ok (ensure_cloned s d r o _) _ h2 in
      let (_, _, h4) = then_with-eq-ok (s.randomize_mac r.backend.object_id _) _ h3 in
      let (_, rests, h5) = then_with-eq-ok (at_rest s d r.backend.object_id _) _ h4 in
      let next = as_created s d r in
      let (_, done, last) = then_with-eq-ok (save_record s.outside.coerce r.domain next _) _ h5 in
      let (back, _) = load_record-save_record s.outside.coerce r.domain next _ done in
      let w_is = ap (λ p. p.1) last in
      subst (λ x. Created x w') (ok-injective next q (ap (λ p. p.0) last))
        (record {
          requested = record {
            domain_is = asked.domain_is;
            name_is = asked.name_is;
            mode_is = asked.mode_is;
            base_is = asked.base_is;
            digest_is = asked.digest_is;
          };
          stopped = refl;
          on_record =
              ap (λ n. load_record d n w') (sym asked.name_is)
              ∙ ap (λ n. load_record n r.name w') (sym asked.domain_is)
              ∙ subst (λ y. load_record r.domain r.name y ≡ ok next) w_is
                  (back ∙ ap ok (not_upgraded r version));
          at_rest_seen = at_rest-AtRest r.backend.object_id _ rests;
        })

  persist_again-upgrades :
      (r q : SessionRecord) (w w' : World)
      → r.domain ≡ d
      → r.name ≡ name
      → persist_again s d name r w ≡ (ok q, w')
      → (q ≡ upgrade_record_for_store r) × (load_record d name w' ≡ ok q)
  unfolding persist_again
  persist_again-upgrades r q w w' domain_is name_is h =
      let (_, done, last) = then_with-eq-ok (save_record s.outside.coerce r.domain r w) _ h in
      let w1 = (save_record s.outside.coerce r.domain r w).1 in
      let (back, _) = load_record-save_record s.outside.coerce r.domain r w done in
      let loads : load_record d name w1 ≡ ok q = ap (λ p. p.0) last in
      let there : load_record d name w1 ≡ ok (upgrade_record_for_store r) =
        ap (λ n. load_record d n w1) (sym name_is)
        ∙ ap (λ n. load_record n r.name w1) (sym domain_is)
        ∙ back in
      (
        ok-injective q (upgrade_record_for_store r) (sym loads ∙ there),
        subst (λ y. load_record d name y ≡ ok q) (ap (λ p. p.1) last) loads,
      )

  kept-Requested : (r q : SessionRecord) → Same q r → Requested r → Requested q
  kept-Requested r q k a = record {
    domain_is = k.domain_is ∙ a.domain_is;
    name_is = k.name_is ∙ a.name_is;
    mode_is = k.mode_is ∙ a.mode_is;
    base_is = elim a.base_is [ inl e ↦ inl e | inr e ↦ inr (k.base_is ∙ e) ];
    digest_is = k.digest_is ∙ a.digest_is;
  }

  pub create_stopped-Created :
      (r q : SessionRecord) (w w' : World)
      → Requested r
      → is_stopped r.intended_state ≡ true
      → create_stopped s d name r w ≡ (ok q, w')
      → Created q w'
  unfolding create_stopped
  create_stopped-Created r q w w' asked stops h =
      let (_, rests, h1) = then_with-eq-ok (at_rest s d r.backend.object_id w) _ h in
      let (q_is, loads) = persist_again-upgrades r q _ w' asked.domain_is asked.name_is h1 in
      let k = upgrade-Same r in
      let seen = at_rest-AtRest r.backend.object_id w rests in
      record {
        requested =
            subst Requested (sym q_is) (kept-Requested r (upgrade_record_for_store r) k asked);
        stopped =
            ap (λ x. is_stopped x.intended_state) q_is ∙ ap (λ i. is_stopped i) k.intent_is ∙ stops;
        on_record = loads;
        at_rest_seen =
            subst (λ x. AtRest x)
              (sym (ap (λ x. x.backend.object_id) q_is ∙ ap (λ b. b.object_id) k.backend_is)) seen;
      }

  creating-facts :
      (r : SessionRecord) → has_creating_identity r ≡ true → is_empty r.golden_revision ≡ false
  unfolding has_creating_identity
  creating-facts r h = ground arith

  pub create_again-Created :
      (r q : SessionRecord) (w w' : World)
      → Requested r
      → is_creating r.intended_state ≡ true
      → create_again s d name r w ≡ (ok q, w')
      → Created q w'
  unfolding create_again
  create_again-Created r q w w' asked creates h =
      let (identity, h1) = guard-passed (has_creating_identity r) _ h in
      let (x, ran, h2) = then_with-eq-ok (persist_again s d name r w) _ h1 in
      let w1 = (persist_again s d name r w).1 in
      let (x_is, _) =
        persist_again-upgrades r x w w1 asked.domain_is asked.name_is (ap (λ o. (o, w1)) ran) in
      reconcile_creating-Created x q w1 w'
        (subst Requested (sym x_is)
          (kept-Requested r (upgrade_record_for_store r) (upgrade-Same r) asked))
        (subst (λ y. (y.version == 1) ≡ false) (sym x_is)
          (upgraded_version r (creating-facts r identity) creates))
        h2
