-- ===== src/Session/Rebuild/Reserved.antt =====
-- What the reservation of a backend object excludes, and what a new rebuild journal blocks.
use boxwarden.Prelude.{
  Bool-cases, Bytes, Option-cases, [], ap, arith, bind-eq-ok, codes, eqb, eqb_iff, false,
  guard-eq-ok, inl, inr, ok, some, ◌∙◌, ◌∷◌, ◌≡◌, ◌≢◌,
}
use boxwarden.Ident.{head_then_alnum, parse_domain, parse_name}
use boxwarden.Ident.Names.{parse_domain-eq, parse_name-eq}
use boxwarden.Json.{Json}
use boxwarden.Session.Rebuild.Journal.{RebuildJournal}
use boxwarden.Session.Rebuild.Registry.{
  all_leave, all_spare, leaves_object, load_journal_file, load_present, load_rebuild_journal,
  require_unreserved_backend_object, require_unreserved_rebuild_object, spares_object,
}
use boxwarden.Session.Store.{load_file, load_from, load_record}
use boxwarden.Session.Types.{SessionRecord}
use boxwarden.World.{Dir, World, find_file, has_prefix, json_name}
use boxwarden.World.Files.{key_of-json_name}

-- Every entry of a walk that succeeds has been passed.
all_spare-at :
    (d object_id name : Bytes) (doc : Json) (w : World) (dir : Dir)
    → all_spare d object_id w dir ≡ ok tt
    → find_file name dir ≡ some doc
    → spares_object d object_id w name ≡ ok tt
unfolding all_spare find_file
all_spare-at d object_id name doc w [] h f = cc
all_spare-at d object_id name doc w ((n, x) ∷ rest) h f =
    let (_, now, later) = bind-eq-ok (spares_object d object_id w n) _ h in
    elim (Bool-cases (eqb n name)) [
      | inl e ↦ rw ((eqb_iff n name).0 e) at now
      | inr e ↦ all_spare-at d object_id name doc w rest later (rw (e, find_file) at f)
    ]

all_leave-at :
    (d owner object_id name : Bytes) (doc : Json) (w : World) (dir : Dir)
    → all_leave d owner object_id w dir ≡ ok tt
    → find_file name dir ≡ some doc
    → leaves_object d owner object_id w name ≡ ok tt
unfolding all_leave find_file
all_leave-at d owner object_id name doc w [] h f = cc
all_leave-at d owner object_id name doc w ((n, x) ∷ rest) h f =
    let (_, now, later) = bind-eq-ok (leaves_object d owner object_id w n) _ h in
    elim (Bool-cases (eqb n name)) [
      | inl e ↦ rw ((eqb_iff n name).0 e) at now
      | inr e ↦ all_leave-at d owner object_id name doc w rest later (rw (e, find_file) at f)
    ]

journal_file :
    (d n : Bytes) (w : World) (j : RebuildJournal)
    → load_rebuild_journal d n w ≡ ok (some j)
    → (parse_name n ≡ ok n) × (doc : Json) × (find_file (json_name n) w.rebuilds ≡ some doc)
unfolding load_rebuild_journal load_journal_file
journal_file d n w j h =
    let (_, _, rest) = bind-eq-ok (parse_domain d) _ h in
    let (m, named, loads) = bind-eq-ok (parse_name n) _ rest in
    let m_is = parse_name-eq n named in
    let (doc, found) : (doc : Json) × (find_file (json_name n) w.rebuilds ≡ some doc) =
      elim (Option-cases (find_file (json_name n) w.rebuilds)) [
        | inl missing ↦ cc (rw missing at (rw m_is at loads))
        | inr found ↦ found
      ] in
    (named ∙ ap ok m_is, doc, found)

session_file :
    (d n : Bytes) (w : World) (r : SessionRecord)
    → load_record d n w ≡ ok r
    → (parse_name n ≡ ok n)
      × (load_from w.sessions d n ≡ ok r)
      × (doc : Json) × (find_file (json_name n) w.sessions ≡ some doc)
unfolding load_record load_from load_file
session_file d n w r h =
    let (e, parsed, rest) = bind-eq-ok (parse_domain d) _ h in
    let (m, named, loads) = bind-eq-ok (parse_name n) _ rest in
    let m_is = parse_name-eq n named in
    let loads = rw (parse_domain-eq d parsed) at (rw m_is at loads) in
    let (doc, found) : (doc : Json) × (find_file (json_name n) w.sessions ≡ some doc) =
      elim (Option-cases (find_file (json_name n) w.sessions)) [
        | inl missing ↦ cc (rw missing at loads)
        | inr found ↦ found
      ] in
    (named ∙ ap ok m_is, loads, doc, found)

not_hidden : (n : Bytes) → parse_name n ≡ ok n → has_prefix (json_name n) (codes ".") ≡ false
unfolding parse_name head_then_alnum has_prefix
not_hidden [] h = cc
not_hidden (c ∷ cs) h = ground arith

apart : (a b : Bytes) → eqb a b ≡ false → a ≢ b
apart a b h e = cc (h, (eqb_iff a b).1 e)

module _ (d owner object_id : Bytes) (w : World)
    (h : require_unreserved_backend_object d owner object_id w ≡ ok tt) where
  both :
      (all_spare d object_id w w.rebuilds ≡ ok tt)
      × (all_leave d owner object_id w w.sessions ≡ ok tt)
  unfolding require_unreserved_backend_object require_unreserved_rebuild_object
  both = let (_, a, b) = bind-eq-ok (all_spare d object_id w w.rebuilds) _ h in (a, b)

  free_of_journals :
      (n : Bytes) (j : RebuildJournal)
      → load_rebuild_journal d n w ≡ ok (some j)
      → (j.old_backend ≢ object_id) × (j.candidate_backend ≢ object_id)
  unfolding spares_object load_present
  free_of_journals n j l =
      let (named, doc, found) = journal_file d n w j l in
      let passed = all_spare-at d object_id (json_name n) doc w w.rebuilds both.0 found in
      let test = rw (spares_object, key_of-json_name n) at passed in
      let test = guard-eq-ok _ (rw (named, l) at test) in
      (
        apart j.old_backend object_id (ground arith),
        apart j.candidate_backend object_id (ground arith),
      )

  free_of_records :
      (n : Bytes) (r : SessionRecord)
      → load_record d n w ≡ ok r
      → n ≢ owner
      → r.backend.object_id ≢ object_id
  unfolding leaves_object
  free_of_records n r l ne =
      let (named, loads, doc, found) = session_file d n w r l in
      let passed = all_leave-at d owner object_id (json_name n) doc w w.sessions both.1 found in
      let test = rw (leaves_object, not_hidden n named, key_of-json_name n) at passed in
      let test = guard-eq-ok _ (rw (named, loads) at test) in
      apart r.backend.object_id object_id (ground (arith, eqb_iff n owner))

-- A backend object that passes the test of reservations is held by no rebuild journal of the
-- domain that loads, and by no session record that loads but the owner's.
pub require_unreserved_backend_object-free :
    (d owner object_id : Bytes) (w : World)
    → require_unreserved_backend_object d owner object_id w ≡ ok tt
    → ((n : Bytes) (j : RebuildJournal)
        → load_rebuild_journal d n w ≡ ok (some j)
        → (j.old_backend ≢ object_id) × (j.candidate_backend ≢ object_id))
      × ((n : Bytes) (r : SessionRecord)
          → load_record d n w ≡ ok r
          → n ≢ owner
          → r.backend.object_id ≢ object_id)
require_unreserved_backend_object-free d owner object_id w h =
    (free_of_journals d owner object_id w h, free_of_records d owner object_id w h)
