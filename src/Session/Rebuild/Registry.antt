-- ===== src/Session/Rebuild/Registry.antt =====
-- The registry of rebuild journals: internal/session/rebuild_journal.go, and
-- requireUnreservedBackendObject of internal/session/store.go. That no journal exists is the
-- answer `ok none` of the load. The bound of 4096 bytes on a journal is left out.
use boxwarden.Prelude.{
  Bool, Bytes, Option, Outcome, [], bind, codes, eqb, err, false, guard, if◌then◌else◌, is_some,
  none, not, ok, same, some, true, ◌&&◌, ◌||◌, ◌∷◌,
}
use boxwarden.Ident.{parse_domain, parse_name}
use boxwarden.Json.{Json}
use boxwarden.Session.Rebuild.Journal.{
  Journal-discrete, RebuildJournal, RebuildPhase, decode_rebuild_journal, validate_rebuild_journal,
}
use boxwarden.Session.Rebuild.Marshal.{marshal_journal}
use boxwarden.Session.Store.{load_from}
use boxwarden.World.{
  Dir, M, Registry, World, asks, create_file, fail, find_file, has_infix, has_prefix, json_name,
  key_of, lift, pure, remove_file, replace_file, ◌>>=◌, ◌>>◌,
}

unfoldable pub load_journal_file : Bytes → Bytes → Option Json → Outcome (Option RebuildJournal)
load_journal_file expected_domain name none = ok none
load_journal_file expected_domain name (some doc) = bind (decode_rebuild_journal doc) (λ j.
    if not (eqb j.domain expected_domain) || not (eqb j.session_name name)
    then err
    else ok (some j))

unfoldable pub load_rebuild_journal : Bytes → Bytes → World → Outcome (Option RebuildJournal)
unfolding load_journal_file
load_rebuild_journal expected_domain session_name w = bind (parse_domain expected_domain) (λ _.
    bind (parse_name session_name)
      (λ name. load_journal_file expected_domain name (find_file (json_name name) w.rebuilds)))

unfoldable pub require_no_rebuild : Bytes → Bytes → World → Outcome (Unit {0})
unfolding load_rebuild_journal
require_no_rebuild d name w =
    bind (load_rebuild_journal d name w) (λ found. guard (not (is_some found)))

-- A journal that is missing is an error.
abbrev pub present : Option RebuildJournal → Outcome RebuildJournal
present none = err
present (some j) = ok j

unfoldable pub load_present : Bytes → Bytes → World → Outcome RebuildJournal
unfolding load_rebuild_journal
load_present d name w = bind (load_rebuild_journal d name w) present

abbrev pub is_reserved : RebuildPhase → Bool
is_reserved RebuildPhase.reserved = true
is_reserved _ = false

abbrev pub is_retiring : RebuildPhase → Bool
is_retiring RebuildPhase.retiring = true
is_retiring _ = false

-- The entry of one journal does not hold the object.
unfoldable pub spares_object : Bytes → Bytes → World → Bytes → Outcome (Unit {0})
unfolding load_present
spares_object d object_id w entry = elim (key_of entry) [
  | none ↦ err
  | some key ↦ bind (parse_name key) (λ name.
      bind (load_present d name w)
        (λ j. guard (not (eqb j.old_backend object_id || eqb j.candidate_backend object_id))))
]

unfoldable pub all_spare : Bytes → Bytes → World → Dir → Outcome (Unit {0})
unfolding spares_object
all_spare d object_id w [] = ok tt
all_spare d object_id w ((entry, _) ∷ rest) =
    bind (spares_object d object_id w entry) (λ _. all_spare d object_id w rest)

unfoldable pub require_unreserved_rebuild_object : Bytes → Bytes → World → Outcome (Unit {0})
unfolding all_spare
require_unreserved_rebuild_object d object_id w = all_spare d object_id w w.rebuilds

-- The record of one entry is of this session, or has another object.
unfoldable pub leaves_object : Bytes → Bytes → Bytes → World → Bytes → Outcome (Unit {0})
leaves_object d name object_id w entry =
    if has_prefix entry (codes ".") && has_infix entry (codes ".tmp-")
    then ok tt
    else elim (key_of entry) [
      | none ↦ err
      | some key ↦ bind (parse_name key) (λ owner.
          bind (load_from w.sessions d owner)
            (λ r. guard (not (not (eqb owner name) && eqb r.backend.object_id object_id))))
    ]

unfoldable pub all_leave : Bytes → Bytes → Bytes → World → Dir → Outcome (Unit {0})
unfolding leaves_object
all_leave d name object_id w [] = ok tt
all_leave d name object_id w ((entry, _) ∷ rest) =
    bind (leaves_object d name object_id w entry) (λ _. all_leave d name object_id w rest)

unfoldable pub require_unreserved_backend_object :
    Bytes → Bytes → Bytes → World → Outcome (Unit {0})
unfolding require_unreserved_rebuild_object all_leave
require_unreserved_backend_object d name object_id w =
    bind (require_unreserved_rebuild_object d object_id w)
      (λ _. all_leave d name object_id w w.sessions)

unfoldable pub create_rebuild_journal : (Bytes → Bytes) → RebuildJournal → M (Unit {0})
unfolding require_unreserved_backend_object
create_rebuild_journal coerce j = do
  lift (validate_rebuild_journal j)
  lift (guard (is_reserved j.phase))
  asks (require_unreserved_backend_object j.domain j.session_name j.candidate_backend)
  create_file Registry.rebuilds (json_name j.session_name) (marshal_journal coerce j)

-- The switch on the phase.
unfoldable pub next_phase : RebuildPhase → Outcome RebuildPhase
next_phase RebuildPhase.reserved = ok RebuildPhase.cloned
next_phase RebuildPhase.cloned = ok RebuildPhase.cutover
next_phase RebuildPhase.cutover = ok RebuildPhase.ready
next_phase RebuildPhase.ready = ok RebuildPhase.retiring
next_phase _ = err

-- What is done on the journal that the registry holds.
unfoldable pub advance_from :
    (Bytes → Bytes) → RebuildJournal → RebuildJournal → RebuildJournal → M (Unit {0})
advance_from coerce expected next current =
    if same Journal-discrete current next
    then pure tt
    else if not (same Journal-discrete current expected)
    then fail
    else replace_file Registry.rebuilds (json_name expected.session_name)
        (marshal_journal coerce next)

unfoldable pub advance_rebuild_journal :
    (Bytes → Bytes) → RebuildJournal → RebuildJournal → M (Unit {0})
unfolding next_phase load_present advance_from
advance_rebuild_journal coerce expected next = do
  lift (validate_rebuild_journal expected)
  lift (validate_rebuild_journal next)
  phase ← lift (next_phase expected.phase)
  lift (guard (same Journal-discrete next (record expected { phase = phase })))
  current ← asks (load_present expected.domain expected.session_name)
  advance_from coerce expected next current

unfoldable pub remove_rebuild_journal : RebuildJournal → M (Unit {0})
unfolding load_present
remove_rebuild_journal expected = do
  lift (validate_rebuild_journal expected)
  lift (guard (is_retiring expected.phase))
  current ← asks (load_present expected.domain expected.session_name)
  lift (guard (same Journal-discrete current expected))
  remove_file Registry.rebuilds (json_name expected.session_name)
