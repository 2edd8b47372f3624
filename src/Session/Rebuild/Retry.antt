-- ===== src/Session/Rebuild/Retry.antt =====
-- Repeated attempts to advance a journal, as a caller makes them behind a failure or a crash.
use boxwarden.Prelude.{
  Bool-cases, Bytes, List, [], ap, inl, inr, ok, refl, same, same_refl, some, subst, true, ◌∷◌, ◌≡◌,
  ◌⊎◌,
}
use boxwarden.Json.{Json}
use boxwarden.Session.Rebuild.Advance.{
  Admitted, Succeeds-next_phase, advance_rebuild_journal-repeats, advance_rebuild_journal-steps,
}
use boxwarden.Session.Rebuild.Journal.{Journal-discrete, RebuildJournal}
use boxwarden.Session.Rebuild.Lands.{advance_rebuild_journal-lands}
use boxwarden.Session.Rebuild.Marshal.{IsText, marshal_journal}
use boxwarden.Session.Rebuild.Registry.{
  advance_from, advance_rebuild_journal, load_present, load_rebuild_journal,
}
use boxwarden.World.{Fate, Registry, World, change, commit, json_name, put_file, replace_file}

module _ (coerce : Bytes → Bytes) (expected next : RebuildJournal) where
  -- The worlds that a run of attempts may leave, whatever became of each.
  pub data Attempts (w : World) : World → Type 0 where
    untried : Attempts w w
    tried_again :
        {v : World} → Attempts w v → Attempts w (advance_rebuild_journal coerce expected next v).1

  -- The next write is not refused, and is synced.
  pub data Writable : List Fate → Type 0 where
    no_fate_left : Writable []
    next_durable : (fs : List Fate) → Writable (Fate.durable ∷ fs)

  abbrev Loads : World → RebuildJournal → Type 0
  Loads w j = load_rebuild_journal expected.domain expected.session_name w ≡ ok (some j)

  -- The journal stands where it stood, or one phase later.
  Unsettled : World → Type 0
  Unsettled w = Loads w expected ⊎ Loads w next

  advance_rebuild_journal-Unsettled :
      IsText coerce next
      → (w : World) → Unsettled w
      → Unsettled (advance_rebuild_journal coerce expected next w).1
  unfolding Unsettled
  advance_rebuild_journal-Unsettled t w stands = elim stands [
    | inl l ↦
        elim (advance_rebuild_journal-steps coerce expected next w t expected.session_name
          (some expected) l) [ inl same_one ↦ inl same_one | inr (_, _, there, _, _) ↦ inr there ]
    | inr l ↦
        elim (advance_rebuild_journal-steps coerce expected next w t expected.session_name
          (some next) l) [ inl same_one ↦ inr same_one | inr (_, _, there, _, _) ↦ inr there ]
  ]

  Attempts-Unsettled : IsText coerce next → {w v : World} → Unsettled w → Attempts w v → Unsettled v
  Attempts-Unsettled t stands untried = stands
  Attempts-Unsettled t {w} stands (tried_again {v} tries) =
      advance_rebuild_journal-Unsettled t v (Attempts-Unsettled t stands tries)

  replace_file-succeeds :
      (reg : Registry) (k : Bytes) (doc : Json) (w : World)
      → Writable w.fates
      → (replace_file reg k doc w).0 ≡ ok tt
  unfolding replace_file
  replace_file-succeeds reg k doc w writable =
      committed w.fates (change reg (put_file k doc)) w writable
    where
      committed :
          (fs : List Fate) (f : World → World) (v : World) → Writable fs → (commit fs f v).0 ≡ ok tt
      committed _ f v no_fate_left = refl
      committed _ f v (next_durable fs) = refl

  advance_rebuild_journal-succeeds :
      Admitted expected next
      → (w : World) → Unsettled w
      → Writable w.fates
      → (advance_rebuild_journal coerce expected next w).0 ≡ ok tt
  unfolding advance_rebuild_journal advance_from load_present Unsettled
  advance_rebuild_journal-succeeds a w stands writable = elim stands [
    | inr l ↦
        ap (λ o. o.0)
          (advance_rebuild_journal-repeats coerce expected next w a.expected_valid a.next_valid
            a.successor a.only_phase l)
    | inl l ↦
        rw
          (
            a.expected_valid,
            a.next_valid,
            Succeeds-next_phase expected.phase next.phase a.successor,
          )
          (rw
            (
              subst (λ j. same Journal-discrete next j ≡ true) a.only_phase
                  (same_refl Journal-discrete next),
              l,
            )
            (elim (Bool-cases (same Journal-discrete expected next)) [
              | inl there ↦ rw there refl
              | inr fresh ↦
                  rw (fresh, same_refl Journal-discrete expected)
                    (replace_file-succeeds Registry.rebuilds (json_name expected.session_name)
                      (marshal_journal coerce next) w writable)
            ]))
  ]

  -- A journal that is advanced by one phase is not stuck by failures: after any number of attempts,
  -- whatever became of their writes, the next attempt whose write works succeeds, and the next
  -- journal loads. The registry held the expected journal at first, both journals are valid and one
  -- phase apart, and the texts of the next one are UTF-8.
  pub advance_rebuild_journal-retries :
      Admitted expected next
      → IsText coerce next
      → (w v : World)
      → load_rebuild_journal expected.domain expected.session_name w ≡ ok (some expected)
      → Attempts w v
      → Writable v.fates
      → ((advance_rebuild_journal coerce expected next v).0 ≡ ok tt)
        × (load_present expected.domain expected.session_name
              (advance_rebuild_journal coerce expected next v).1
            ≡ ok next)
  unfolding Unsettled
  advance_rebuild_journal-retries a t w v l tries writable =
      let stands = Attempts-Unsettled t (inl l) tries in
      let done = advance_rebuild_journal-succeeds a v stands writable in
      (done, advance_rebuild_journal-lands coerce expected next v t done)
