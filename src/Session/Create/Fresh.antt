-- ===== src/Session/Create/Fresh.antt =====
-- A new session: its identity is free where it is drawn, and then its record is written.
use boxwarden.Prelude.{
  Bytes, ap, arith, false, not, ok, ok-injective, refl, some, subst, true, ◌||◌, ◌∙◌, ◌≡◌, ◌≢◌,
}
use boxwarden.Backend.{Observation, is_exact, is_unknown_object}
use boxwarden.Ident.{object_id_for, valid_backend_object_id, valid_uuid}
use boxwarden.Ident.Hex.{new_id}
use boxwarden.Session.Create.{Creating, creating_record, reserve_identity}
use boxwarden.Session.Rebuild.Journal.{RebuildJournal}
use boxwarden.Session.Rebuild.Registry.{load_rebuild_journal, require_unreserved_backend_object}
use boxwarden.Session.Rebuild.Reserved.{require_unreserved_backend_object-free}
use boxwarden.Session.Stop.{observe_exact}
use boxwarden.Session.Store.{load_record, save_record, upgrade_record_for_store}
use boxwarden.Session.Store.Atomic.{load_record-save_record}
use boxwarden.Session.Types.{IntendedState, Mode, SessionRecord, tart}
use boxwarden.World.{World}
use boxwarden.World.Runs.{guard-passed, then_with-eq-ok}

module _ (s : Creating) (d name : Bytes) (mode : Mode) where
  -- The world in which the registries are searched: random bytes have been drawn, and nothing else.
  abbrev pub drawn_in : World → World
  drawn_in w = (s.random w).1

  -- The world in which the record is written: the observer has been asked next, and nobody else.
  abbrev pub seen_in : Bytes → World → World
  seen_in object_id w = (s.outside.observe object_id (drawn_in w)).1

  -- The record of a new session, on record, and its object, which nobody held and nobody saw when
  -- the record was written.
  pub record Fresh (revision digest : Bytes) (r : SessionRecord) (w w' : World) : Type 0 where
    pub source : Bytes
    pub drawn : (s.random w).0 ≡ ok source
    pub id : Bytes
    pub id_is : new_id source ≡ ok id
    pub uuid : valid_uuid id ≡ true
    pub record_is : r ≡ creating_record s d name mode id revision digest
    pub creating : r.intended_state ≡ IntendedState.creating
    pub id_kept : r.id ≡ id
    pub domain_is : r.domain ≡ d
    pub name_is : r.name ≡ name
    pub mode_is : r.mode ≡ mode
    pub object_is : r.backend ≡ record { kind = tart; object_id = object_id_for d id }
    pub revision_is : r.golden_revision ≡ revision
    pub intent_is : r.recipe_intent_digest ≡ digest
    pub on_record : load_record d name w' ≡ ok r
    pub no_journal :
        (n : Bytes) (j : RebuildJournal)
        → load_rebuild_journal d n (drawn_in w) ≡ ok (some j)
        → (j.old_backend ≢ r.backend.object_id) × (j.candidate_backend ≢ r.backend.object_id)
    pub no_record :
        (n : Bytes) (q : SessionRecord)
        → load_record d n (drawn_in w) ≡ ok q
        → n ≢ name
        → q.backend.object_id ≢ r.backend.object_id
    pub seen : Observation
    pub observes : (s.outside.observe r.backend.object_id (drawn_in w)).0 ≡ ok seen
    pub absent : seen.exists ≡ false
    pub written : save_record s.outside.coerce d r (seen_in r.backend.object_id w) ≡ (ok tt, w')

  not_upgraded :
      (id revision digest : Bytes)
      → upgrade_record_for_store (creating_record s d name mode id revision digest)
        ≡ creating_record s d name mode id revision digest
  unfolding upgrade_record_for_store
  not_upgraded id revision digest = refl

  observed_exactly :
      (object_id : Bytes) (w : World) (o : Observation)
      → (observe_exact s.outside d object_id w).0 ≡ ok o
      → ((s.outside.observe object_id w).0 ≡ ok o)
        × ((s.outside.observe object_id w).1 ≡ (observe_exact s.outside d object_id w).1)
  unfolding observe_exact
  observed_exactly object_id w o h =
      let w1 = (observe_exact s.outside d object_id w).1 in
      let (x, seen, h1) = then_with-eq-ok (s.outside.observe object_id w) _ (ap (λ y. (y, w1)) h) in
      let (_, last) = guard-passed (is_exact object_id x) _ h1 in
      (seen ∙ ap (λ p. p.0) last, ap (λ p. p.1) last)

  -- An identity that is reserved is the valid UUID of the random bytes that were drawn first. In the
  -- world that they left, its derived backend object was in no rebuild journal that loads and in no
  -- other session record that loads, and was seen absent. The creating record was then written in
  -- the world that the observer left, which left the last world, and it is what the name loads.
  pub reserve_identity-Fresh :
      (revision digest : Bytes) (r : SessionRecord) (w w' : World)
      → reserve_identity s d name mode revision digest w ≡ (ok r, w')
      → Fresh revision digest r w w'
  unfolding reserve_identity
  reserve_identity-Fresh revision digest r w w' h =
      let (source, drawn, h1) = then_with-eq-ok (s.random w) _ h in
      let w1 = (s.random w).1 in
      let (i, i_is, h2) = then_with-eq-ok (new_id source, w1) _ h1 in
      let (valid, h3) = guard-passed (valid_uuid i) _ h2 in
      let object_id = object_id_for d i in
      let (_, h4) = guard-passed (valid_backend_object_id object_id) _ h3 in
      let (_, unreserved, h5) =
        then_with-eq-ok (require_unreserved_backend_object d name object_id w1, w1) _ h4 in
      let (o, observed, h6) = then_with-eq-ok (observe_exact s.outside d object_id w1) _ h5 in
      let w2 = (observe_exact s.outside d object_id w1).1 in
      let (gone, h7) = guard-passed (not (o.exists || not (is_unknown_object o.state))) _ h6 in
      let next = creating_record s d name mode i revision digest in
      let (_, done, last) = then_with-eq-ok (save_record s.outside.coerce d next w2) _ h7 in
      let (back, _) = load_record-save_record s.outside.coerce d next w2 done in
      let (journals, records) =
        require_unreserved_backend_object-free d name object_id w1 unreserved in
      let (told, seen_is) = observed_exactly object_id w1 o observed in
      let w_is : (save_record s.outside.coerce d next w2).1 ≡ w' = ap (λ p. p.1) last in
      let wrote : save_record s.outside.coerce d next w2 ≡ (ok tt, w') =
        ap (λ y. (y, (save_record s.outside.coerce d next w2).1)) done
        ∙ ap (λ y. (ok tt, y)) w_is in
      subst (λ x. Fresh revision digest x w w') (ok-injective next r (ap (λ p. p.0) last))
        (record {
          source = source;
          drawn = drawn;
          id = i;
          id_is = i_is;
          uuid = valid;
          record_is = refl;
          creating = refl;
          id_kept = refl;
          domain_is = refl;
          name_is = refl;
          mode_is = refl;
          object_is = refl;
          revision_is = refl;
          intent_is = refl;
          on_record =
              subst (λ y. load_record d name y ≡ ok next) w_is
                (back ∙ ap ok (not_upgraded i revision digest));
          no_journal = journals;
          no_record = records;
          seen = o;
          observes = told;
          absent = ground arith;
          written = ap (save_record s.outside.coerce d next) seen_is ∙ wrote;
        })
