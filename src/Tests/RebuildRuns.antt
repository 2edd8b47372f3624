-- ===== src/Tests/RebuildRuns.antt =====
-- Rebuild journals.
use boxwarden.Prelude.{Bytes, Outcome, [], err, none, ok, refl, some, ◌∷◌, ◌≡◌, ◌≢◌, ◌⊎◌}
use boxwarden.Ident.{object_id_for}
use boxwarden.Session.Rebuild.Advance.{Admitted, Step, advance_rebuild_journal-steps, to_cloned}
use boxwarden.Session.Rebuild.Create.{
  Frees, create_rebuild_journal-blocks, remove_rebuild_journal-Frees,
}
use boxwarden.Session.Rebuild.Journal.{
  RebuildJournal, RebuildPhase, decode_rebuild_journal, validate_rebuild_journal,
}
use boxwarden.Session.Rebuild.Marshal.{
  IsText, decode_rebuild_journal-marshal_journal, marshal_journal,
}
use boxwarden.Session.Rebuild.Registry.{
  advance_rebuild_journal, create_rebuild_journal, load_present, load_rebuild_journal,
  remove_rebuild_journal, require_no_rebuild, require_unreserved_backend_object,
}
use boxwarden.Session.Rebuild.Reserved.{require_unreserved_backend_object-free}
use boxwarden.Session.Rebuild.Retry.{
  Writable, advance_rebuild_journal-retries, no_fate_left, tried_again, untried,
}
use boxwarden.Session.Store.{load_record}
use boxwarden.Session.Types.{SessionRecord}
use boxwarden.Tests.Sample.{dev, empty_world, plain, uuid_b, work}
use boxwarden.Tests.Volumes.{cloned_rebuild, rebuilding, reserved_rebuild, volume_code}
use boxwarden.World.{Fate, World}

reserved-valid : validate_rebuild_journal reserved_rebuild ≡ ok tt
unfolding volume_code
reserved-valid = refl

cloned-valid : validate_rebuild_journal cloned_rebuild ≡ ok tt
unfolding volume_code
cloned-valid = refl

reserved-IsText : IsText plain reserved_rebuild
reserved-IsText = record {
  domain_text = refl;
  name_text = refl;
  id_text = refl;
  operation_text = refl;
  phase_is_text = refl;
  old_text = refl;
  old_revision_text = refl;
  old_intent_text = refl;
  candidate_text = refl;
  candidate_revision_text = refl;
  candidate_intent_text = refl;
  pin_text = refl;
}

cloned-IsText : IsText plain cloned_rebuild
cloned-IsText = record {
  domain_text = refl;
  name_text = refl;
  id_text = refl;
  operation_text = refl;
  phase_is_text = refl;
  old_text = refl;
  old_revision_text = refl;
  old_intent_text = refl;
  candidate_text = refl;
  candidate_revision_text = refl;
  candidate_intent_text = refl;
  pin_text = refl;
}

decode_rebuild_journal-marshal_journal_example :
    decode_rebuild_journal (marshal_journal plain reserved_rebuild) ≡ ok reserved_rebuild
decode_rebuild_journal-marshal_journal_example =
    decode_rebuild_journal-marshal_journal plain reserved_rebuild reserved-IsText reserved-valid

reserved-loads :
    load_rebuild_journal work dev (rebuilding reserved_rebuild) ≡ ok (some reserved_rebuild)
unfolding volume_code
reserved-loads = refl

cloned-loads : load_rebuild_journal work dev (rebuilding cloned_rebuild) ≡ ok (some cloned_rebuild)
unfolding volume_code
cloned-loads = refl

advance_rebuild_journal-steps_example :
    Step plain reserved_rebuild cloned_rebuild
      (rebuilding reserved_rebuild)
      dev
      (some reserved_rebuild)
      (advance_rebuild_journal plain reserved_rebuild cloned_rebuild (rebuilding reserved_rebuild))
advance_rebuild_journal-steps_example =
    advance_rebuild_journal-steps plain reserved_rebuild cloned_rebuild
      (rebuilding reserved_rebuild) cloned-IsText dev (some reserved_rebuild) reserved-loads

to_cloned-Admitted : Admitted reserved_rebuild cloned_rebuild
to_cloned-Admitted = record {
  expected_valid = reserved-valid;
  next_valid = cloned-valid;
  successor = to_cloned;
  only_phase = refl;
}

-- The first attempt is refused, and the second is written but not synced.
abbrev failing_twice : World
failing_twice = record (rebuilding reserved_rebuild) { fates = Fate.refused ∷ Fate.unsynced ∷ [] }

abbrev attempted : World → World
attempted w = (advance_rebuild_journal plain reserved_rebuild cloned_rebuild w).1

reserved-stands : load_rebuild_journal work dev failing_twice ≡ ok (some reserved_rebuild)
unfolding volume_code
reserved-stands = refl

failed_twice :
    Writable plain reserved_rebuild cloned_rebuild (attempted (attempted failing_twice)).fates
unfolding volume_code
failed_twice = no_fate_left

advance_rebuild_journal-retries_example :
    ((advance_rebuild_journal plain reserved_rebuild cloned_rebuild
        (attempted (attempted failing_twice))).0
      ≡ ok tt)
    × (load_present work dev (attempted (attempted (attempted failing_twice))) ≡ ok cloned_rebuild)
advance_rebuild_journal-retries_example =
    advance_rebuild_journal-retries plain reserved_rebuild cloned_rebuild to_cloned-Admitted
      cloned-IsText failing_twice (attempted (attempted failing_twice)) reserved-stands
      (tried_again (tried_again untried)) failed_twice

advances :
    load_rebuild_journal work dev
      (advance_rebuild_journal plain reserved_rebuild cloned_rebuild
        (rebuilding reserved_rebuild)).1
    ≡ ok (some cloned_rebuild)
unfolding volume_code
advances = refl

unreserved :
    require_unreserved_backend_object work dev (object_id_for work uuid_b) empty_world ≡ ok tt
unfolding volume_code
unreserved = refl

require_unreserved_backend_object-free_example :
    ((n : Bytes) (j : RebuildJournal)
      → load_rebuild_journal work n empty_world ≡ ok (some j)
      → (j.old_backend ≢ object_id_for work uuid_b)
        × (j.candidate_backend ≢ object_id_for work uuid_b))
    × ((n : Bytes) (r : SessionRecord)
        → load_record work n empty_world ≡ ok r
        → n ≢ dev
        → r.backend.object_id ≢ object_id_for work uuid_b)
require_unreserved_backend_object-free_example =
    require_unreserved_backend_object-free work dev (object_id_for work uuid_b) empty_world
      unreserved

abbrev created : Outcome (Unit {0}) × World
created = create_rebuild_journal plain reserved_rebuild empty_world

create_rebuild_journal-blocks_example :
    ((created.0 ≡ err) × (created.1.rebuilds ≡ empty_world.rebuilds))
    ⊎ ((load_rebuild_journal work dev empty_world ≡ ok none)
        × (require_no_rebuild work dev created.1 ≡ err)
        × (created.0 ≡ ok tt
            → load_rebuild_journal work dev created.1 ≡ ok (some reserved_rebuild)))
create_rebuild_journal-blocks_example =
    create_rebuild_journal-blocks plain reserved_rebuild empty_world reserved-IsText

abbrev retiring_rebuild : RebuildJournal
retiring_rebuild = record reserved_rebuild { phase = RebuildPhase.retiring }

removes : (remove_rebuild_journal retiring_rebuild (rebuilding retiring_rebuild)).0 ≡ ok tt
unfolding volume_code
removes = refl

remove_rebuild_journal-Frees_example :
    Frees retiring_rebuild
      (rebuilding retiring_rebuild)
      (remove_rebuild_journal retiring_rebuild (rebuilding retiring_rebuild))
remove_rebuild_journal-Frees_example =
    remove_rebuild_journal-Frees retiring_rebuild (rebuilding retiring_rebuild)
