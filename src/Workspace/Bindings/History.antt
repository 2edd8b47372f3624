-- ===== src/Workspace/Bindings/History.antt =====
-- The history of one volume under any writes to the registry.
use mathlib.Core.Option.{some-injective}
use boxwarden.Prelude.{
  Bool, Bool-cases, Bytes, Option-cases, Outcome, [], ap, arith, bind-eq-ok, else-eq-ok, eqb,
  eqb_iff, inl, inr, ok, some, sym, true, ◌∙◌, ◌∷◌, ◌≡◌,
}
use boxwarden.Ident.{parse_domain, valid_uuid}
use boxwarden.Ident.Names.{parse_domain-eq}
use boxwarden.Json.{Json, decode_object}
use boxwarden.Workspace.Bindings.{
  ExportJournal, Mutation, check_bindings, check_entries, check_existing, check_key, load_from,
  load_record, load_volume,
}
use boxwarden.Workspace.Decode.{all_seen, decode_record, decode_record_field, no_reading}
use boxwarden.Workspace.Types.{WorkspaceRecord, validate_record}
use boxwarden.World.{Dir, World, find_file, json_name, key_of}
use boxwarden.World.Files.{key_of-json_name}

check_entries_at :
    (exports : Bytes → Outcome ExportJournal) (d id : Bytes) (m : Mutation) (next : WorkspaceRecord)
    (name : Bytes) (doc : Json) (dir : Dir) {found : Bool}
    → check_entries exports d next m id dir ≡ ok found
    → find_file name dir ≡ some doc
    → (hit : Bool) × (check_key exports d next m id (key_of name) doc ≡ ok hit)
unfolding check_entries find_file
check_entries_at exports d id m next name doc [] h f = cc
check_entries_at exports d id m next name doc ((n, x) ∷ rest) h f =
    let (hit, now, more) = bind-eq-ok (check_key exports d next m id (key_of n) x) _ h in
    let (found, later, _) = bind-eq-ok (check_entries exports d next m id rest) _ more in
    elim (Bool-cases (eqb n name)) [
      | inl e ↦
          let here : some x ≡ some doc = rw (e, find_file) at f in
          (hit, rw (sym ((eqb_iff n name).0 e)) (rw (sym (some-injective _ _ here)) now))
      | inr e ↦ check_entries_at exports d id m next name doc rest later (rw (e, find_file) at f)
    ]

pub decode_record-validates :
    (d : Bytes) (doc : Json) (r : WorkspaceRecord)
    → decode_record d doc ≡ ok r
    → validate_record d r ≡ ok tt
unfolding decode_record
decode_record-validates d doc r h =
    let (p, _, rest) = bind-eq-ok (decode_object decode_record_field doc no_reading) _ h in
    let (_, checked) = else-eq-ok (all_seen p) _ rest in
    let (_, valid, e) = bind-eq-ok (validate_record d p.rec) _ checked in ground (arith, e, valid)

-- What a load has found.
pub record Loaded (d v : Bytes) (w : World) (r : WorkspaceRecord) : Type 0 where
  pub doc : Json
  pub found : find_file (json_name v) w.workspaces ≡ some doc
  pub uuid : valid_uuid v ≡ true
  pub domain_parses : parse_domain d ≡ ok d
  pub volume_loads : load_volume d v doc ≡ ok r
  pub is_valid : validate_record d r ≡ ok tt
  pub volume_is : r.volume_id ≡ v

load_volume-facts :
    (d v : Bytes) (doc : Json) (r : WorkspaceRecord)
    → load_volume d v doc ≡ ok r
    → (validate_record d r ≡ ok tt) × (r.volume_id ≡ v)
unfolding load_volume
load_volume-facts d v doc r h =
    let (x, decoded, rest) = bind-eq-ok (decode_record d doc) _ h in
    let (named, e) = else-eq-ok (eqb x.volume_id v) _ rest in
    let valid = decode_record-validates d doc x decoded in
    let named = (eqb_iff x.volume_id v).0 named in ground (arith, e, valid, named)

pub load_record-Loaded :
    (d v : Bytes) (w : World) (r : WorkspaceRecord) → load_record d v w ≡ ok r → Loaded d v w r
unfolding load_record load_from
load_record-Loaded d v w r h =
    let (uuid, rest) = else-eq-ok (valid_uuid v) _ h in
    let (n, parsed, loaded) = bind-eq-ok (parse_domain d) _ rest in
    elim (Option-cases (find_file (json_name v) w.workspaces)) [
      | inl missing ↦ cc (rw missing at loaded)
      | inr (doc, found) ↦
          let loads : load_volume d v doc ≡ ok r = rw found at loaded in
          let (valid, named) = load_volume-facts d v doc r loads in
          record {
            doc = doc;
            found = found;
            uuid = uuid;
            domain_parses = parsed ∙ ap ok (parse_domain-eq d parsed);
            volume_loads = loads;
            is_valid = valid;
            volume_is = named;
          }
    ]

-- What the rules say of a volume that loads.
pub check_bindings-at :
    (exports : Bytes → Outcome ExportJournal) (d id : Bytes) (m : Mutation)
    (next old : WorkspaceRecord) (v : Bytes) (w : World)
    → check_bindings exports d next m id w.workspaces ≡ ok tt
    → Loaded d v w old
    → (hit : Bool) × (check_existing exports d next m id old ≡ ok hit)
unfolding check_bindings check_key
check_bindings-at exports d id m next old v w h l =
    let (found, entries, _) = bind-eq-ok (check_entries exports d next m id w.workspaces) _ h in
    let (hit, key) =
      check_entries_at exports d id m next (json_name v) l.doc w.workspaces entries l.found in
    (hit, rw (l.uuid, l.volume_loads) at (rw (key_of-json_name v) at key))
