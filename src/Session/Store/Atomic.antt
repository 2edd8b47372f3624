-- ===== src/Session/Store/Atomic.antt =====
-- What is loaded behind a write, whatever became of it.
use mathlib.Core.Path.{fun_ext}
use boxwarden.Prelude.{
  Bytes, Option, Outcome-cases, ap, bind, bind-eq-ok, else-eq-ok, eqb, eqb_iff, eqb_refl, err,
  if◌then◌else◌, inl, inr, none, ok, ok-injective, refl, some, sym, ◌∙◌, ◌≡◌, ◌≢◌, ◌⊎◌,
}
use boxwarden.Ident.{parse_domain, parse_name}
use boxwarden.Ident.Names.{parse_domain-eq, parse_name-eq}
use boxwarden.Json.{Json}
use boxwarden.Session.Decode.{decode_record}
use boxwarden.Session.Decode.Marshal.{marshal_record}
use boxwarden.Session.Decode.Sound.{decode_record-IsValid}
use boxwarden.Session.Decode.Valid.{IsValid}
use boxwarden.Session.Store.{
  load_file, load_from, load_record, save_record, upgrade_record_for_store,
}
use boxwarden.Session.Store.Saved.{Validated, save_record-Effect, upgrade-name, written}
use boxwarden.Session.Types.{SessionRecord}
use boxwarden.World.{Dir, World, find_file, json_name}
use boxwarden.World.Files.{find_file-put_file, json_name-apart}

load_file-back :
    (doc : Json) (d : Bytes) (r : SessionRecord)
    → decode_record doc ≡ ok r
    → r.domain ≡ d
    → load_file (some doc) d r.name ≡ ok r
unfolding load_file
load_file-back doc d r h e = rw h (rw (← e) (rw (eqb_refl r.domain, eqb_refl r.name)))

find_file-written :
    (coerce : Bytes → Bytes) (r : SessionRecord) (dir : Dir)
    → find_file (json_name r.name) (written coerce r dir)
      ≡ some (marshal_record coerce (upgrade_record_for_store r))
find_file-written coerce r dir =
    find_file-put_file (json_name r.name) (json_name r.name) _ dir
    ∙ ap
        (λ b.
          if b
          then some (marshal_record coerce (upgrade_record_for_store r))
          else find_file (json_name r.name) dir)
        (eqb_refl (json_name r.name))

load_from-put_self :
    (coerce : Bytes → Bytes) (d : Bytes) (r : SessionRecord) (dir : Dir)
    → Validated coerce d (upgrade_record_for_store r)
    → load_from (written coerce r dir) d r.name ≡ ok (upgrade_record_for_store r)
unfolding load_from
load_from-put_self coerce d r dir v =
    ap (λ f. load_file f d r.name) (find_file-written coerce r dir)
    ∙ ap (load_file (some (marshal_record coerce (upgrade_record_for_store r))) d)
        (sym (upgrade-name r))
    ∙ load_file-back _ d (upgrade_record_for_store r) v.reads_back v.domain_is

load_from-put_other :
    (coerce : Bytes → Bytes) (d n : Bytes) (r : SessionRecord) (dir : Dir)
    → r.name ≢ n
    → load_from (written coerce r dir) d n ≡ load_from dir d n
unfolding load_from
load_from-put_other coerce d n r dir ne =
    ap (λ f. load_file f d n)
      (find_file-put_file (json_name r.name) (json_name n) _ dir
        ∙ ap
            (λ b.
              if b
              then some (marshal_record coerce (upgrade_record_for_store r))
              else find_file (json_name n) dir)
            (json_name-apart r.name n ne))

load_record-other :
    (coerce : Bytes → Bytes) (e n : Bytes) (r : SessionRecord) (w w' : World)
    → w'.sessions ≡ written coerce r w.sessions
    → r.name ≢ n
    → load_record e n w' ≡ load_record e n w
unfolding load_record
load_record-other coerce e n r w w' s ne = elim (Outcome-cases (parse_name n)) [
  | inl bad ↦ rw bad
  | inr (m, good) ↦
      rw (good, s, parse_name-eq n good)
        (ap (bind (parse_domain e)) (fun_ext (λ d. load_from-put_other coerce d n r w.sessions ne)))
]

Validated-name :
    (coerce : Bytes → Bytes) (d : Bytes) (r : SessionRecord)
    → Validated coerce d (upgrade_record_for_store r)
    → parse_name r.name ≡ ok r.name
Validated-name coerce d r v = rw (upgrade-name r) at (
    (decode_record-IsValid (marshal_record coerce (upgrade_record_for_store r))
      v.reads_back).name_parses)

pub load_record-after :
    (coerce : Bytes → Bytes) (d : Bytes) (r : SessionRecord) (w' : World) (dir : Dir)
    → w'.sessions ≡ written coerce r dir
    → Validated coerce d (upgrade_record_for_store r)
    → load_record d r.name w' ≡ ok (upgrade_record_for_store r)
unfolding load_record
load_record-after coerce d r w' dir e v =
    rw (v.domain_parses, Validated-name coerce d r v, e) (load_from-put_self coerce d r dir v)

-- A successful save is read back: loading the record's name gives the record, upgraded from version
-- 1 where that applies, and every other name loads as before.
pub load_record-save_record :
    (coerce : Bytes → Bytes) (d : Bytes) (r : SessionRecord) (w : World)
    → (save_record coerce d r w).0 ≡ ok tt
    → (load_record d r.name (save_record coerce d r w).1 ≡ ok (upgrade_record_for_store r))
      × IsValid (upgrade_record_for_store r)
load_record-save_record coerce d r w done =
    let f = save_record-Effect coerce d r w in
    elim f.sessions_are [
      | inl (failed, _) ↦ cc
      | inr (e, v) ↦ (
        load_record-after coerce d r (save_record coerce d r w).1 w.sessions e v,
        decode_record-IsValid (marshal_record coerce (upgrade_record_for_store r)) v.reads_back,
      )
    ]

-- A save is atomic, whatever becomes of it: the record's name loads either what it loaded before,
-- and then the save has failed, or the whole new record; every other name loads what it loaded
-- before.
pub save_record-atomic :
    (coerce : Bytes → Bytes) (d e n : Bytes) (r : SessionRecord) (w : World)
    → (((save_record coerce d r w).0 ≡ err)
        × (load_record e n (save_record coerce d r w).1 ≡ load_record e n w))
      ⊎ ((load_record d r.name (save_record coerce d r w).1 ≡ ok (upgrade_record_for_store r))
          × (r.name ≢ n → load_record e n (save_record coerce d r w).1 ≡ load_record e n w))
unfolding load_record
save_record-atomic coerce d e n r w =
    let f = save_record-Effect coerce d r w in
    elim f.sessions_are [
      | inl (failed, s) ↦ inl (failed, rw s)
      | inr (s, v) ↦ inr (
        load_record-after coerce d r (save_record coerce d r w).1 w.sessions s v,
        load_record-other coerce e n r w (save_record coerce d r w).1 s,
      )
    ]

pub load_record-same_sessions :
    (d n : Bytes) (w w' : World) → w'.sessions ≡ w.sessions → load_record d n w' ≡ load_record d n w
unfolding load_record
load_record-same_sessions d n w w' e = rw e refl

-- Behind a save that succeeds, every other name loads what it loaded before.
pub save_record-others :
    (coerce : Bytes → Bytes) (d n : Bytes) (r : SessionRecord) (w : World)
    → (save_record coerce d r w).0 ≡ ok tt
    → r.name ≢ n
    → load_record d n (save_record coerce d r w).1 ≡ load_record d n w
save_record-others coerce d n r w done apart = elim (save_record-atomic coerce d d n r w) [
  | inl (failed, _) ↦ cc
  | inr (_, kept) ↦ kept apart
]

-- A record that loads has the domain and the name it is loaded by.
pub load_record-identity :
    (d n : Bytes) (r : SessionRecord) (w : World)
    → load_record d n w ≡ ok r
    → (r.domain ≡ d) × (r.name ≡ n)
unfolding load_record load_from load_file
load_record-identity d n r w h =
    let (x, parsed_domain, h1) = bind-eq-ok (parse_domain d) _ h in
    let (name, parsed, h2) = bind-eq-ok (parse_name n) _ h1 in
    let (domain_is, name_is) = named (find_file (json_name name) w.sessions) x name h2 in
    (domain_is ∙ parse_domain-eq d parsed_domain, name_is ∙ parse_name-eq n parsed)
  where
    named :
        (f : Option Json) (x name : Bytes)
        → load_file f x name ≡ ok r
        → (r.domain ≡ x) × (r.name ≡ name)
    named none x name h = cc
    named (some doc) x name h =
        let (q, _, h1) = bind-eq-ok (decode_record doc) _ h in
        let (domain_is, h2) = else-eq-ok (eqb q.domain x) _ h1 in
        let (name_is, h3) = else-eq-ok (eqb q.name name) _ h2 in
        let q_is = sym (ok-injective q r h3) in
        (
          ap (λ y. y.domain) q_is ∙ (eqb_iff q.domain x).0 domain_is,
          ap (λ y. y.name) q_is ∙ (eqb_iff q.name name).0 name_is,
        )

pub load_record-name :
    (d n : Bytes) (r : SessionRecord) (w : World) → load_record d n w ≡ ok r → r.name ≡ n
load_record-name d n r w h = (load_record-identity d n r w h).1
