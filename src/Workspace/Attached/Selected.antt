-- ===== src/Workspace/Attached/Selected.antt =====
-- What the list of a session's volumes holds: volumes of the session only, few, and apart.
use boxwarden.Prelude.{
  Bool-cases, Bytes, List, Option, Option-cases, [], arith, bind-eq-ok, else-eq-ok, eqb, eqb_iff,
  false, if-eq-ok, inl, inr, length, ltb, none, not, ok, ok-injective, refl, some, subst, true,
  ◌||◌, ◌∙◌, ◌∷◌, ◌≡◌, ◌≤◌,
}
use boxwarden.Ident.{valid_session_name, valid_uuid}
use boxwarden.Json.{Json}
use boxwarden.Workspace.Attached.{
  add_entry, add_record, conflicts, insert, list_session_attachments, ltb_bytes,
  max_registry_entries, max_session_attachments, overlapping, select, sort,
}
use boxwarden.Workspace.Bindings.{load_volume, mounts_overlap}
use boxwarden.Workspace.Types.{Attachment, WorkspaceRecord}
use boxwarden.World.{Dir, World, key_of}

-- Two volumes of one session are apart: other filesystems, and mounts that do not overlap.
pub record Apart (r q : WorkspaceRecord) : Type 0 where
  pub filesystems : eqb r.filesystem_uuid q.filesystem_uuid ≡ false
  pub mounts : overlapping r.attachment q.attachment ≡ false

-- Every volume of a list is apart from the one in question; all of a list are apart.
abbrev pub ApartFrom : WorkspaceRecord → List WorkspaceRecord → Type 0
ApartFrom r [] = Unit
ApartFrom r (q ∷ qs) = Apart q r × ApartFrom r qs

abbrev pub AllApart : List WorkspaceRecord → Type 0
AllApart [] = Unit
AllApart (r ∷ rs) = ApartFrom r rs × AllApart rs

pub eqb_sym : (a b : Bytes) → eqb a b ≡ eqb b a
unfolding eqb
eqb_sym [] [] = refl
eqb_sym [] (y ∷ ys) = refl
eqb_sym (x ∷ xs) [] = refl
eqb_sym (x ∷ xs) (y ∷ ys) = ground (arith, eqb_sym xs ys)

pub mounts_overlap_sym : (a b : Bytes) → mounts_overlap a b ≡ mounts_overlap b a
unfolding mounts_overlap
mounts_overlap_sym a b = ground (arith, eqb_sym a b)

overlapping_sym : (a b : Option Attachment) → overlapping a b ≡ overlapping b a
overlapping_sym none none = refl
overlapping_sym none (some b) = refl
overlapping_sym (some a) none = refl
overlapping_sym (some a) (some b) = mounts_overlap_sym a.mount_path b.mount_path

Apart-sym : (r q : WorkspaceRecord) → Apart r q → Apart q r
Apart-sym r q a = record {
  filesystems = eqb_sym q.filesystem_uuid r.filesystem_uuid ∙ a.filesystems;
  mounts = overlapping_sym q.attachment r.attachment ∙ a.mounts;
}

conflicts-ApartFrom :
    (r : WorkspaceRecord) (qs : List WorkspaceRecord) → conflicts r qs ≡ false → ApartFrom r qs
unfolding conflicts
conflicts-ApartFrom r [] h = tt
conflicts-ApartFrom r (q ∷ qs) h = (
  record { filesystems = ground arith; mounts = ground arith },
  conflicts-ApartFrom r qs (ground arith),
)

ApartFrom-insert :
    (r q : WorkspaceRecord) (qs : List WorkspaceRecord)
    → Apart q r
    → ApartFrom r qs
    → ApartFrom r (insert q qs)
unfolding insert
ApartFrom-insert r q [] a h = (a, tt)
ApartFrom-insert r q (p ∷ ps) a (b, h) = elim (Bool-cases (ltb_bytes p.volume_id q.volume_id)) [
  | inl e ↦ rw e (b, ApartFrom-insert r q ps a h)
  | inr e ↦ rw e (a, (b, h))
]

AllApart-insert :
    (r : WorkspaceRecord) (qs : List WorkspaceRecord)
    → ApartFrom r qs
    → AllApart qs
    → AllApart (insert r qs)
unfolding insert
AllApart-insert r [] a h = (tt, tt)
AllApart-insert r (q ∷ qs) (a, b) (c, h) = elim (Bool-cases (ltb_bytes q.volume_id r.volume_id)) [
  | inl e ↦ rw e (ApartFrom-insert q r qs (Apart-sym q r a) c, AllApart-insert r qs b h)
  | inr e ↦ rw e ((a, b), (c, h))
]

ApartFrom-sort :
    (r : WorkspaceRecord) (qs : List WorkspaceRecord) → ApartFrom r qs → ApartFrom r (sort qs)
unfolding sort
ApartFrom-sort r [] h = tt
ApartFrom-sort r (q ∷ qs) (a, h) = ApartFrom-insert r q (sort qs) a (ApartFrom-sort r qs h)

pub AllApart-sort : (rs : List WorkspaceRecord) → AllApart rs → AllApart (sort rs)
unfolding sort
AllApart-sort [] h = tt
AllApart-sort (r ∷ rs) (a, h) =
    AllApart-insert r (sort rs) (ApartFrom-sort r rs a) (AllApart-sort rs h)

length-insert :
    (r : WorkspaceRecord) (qs : List WorkspaceRecord) → length (insert r qs) ≡ length (r ∷ qs)
unfolding insert
length-insert r [] = refl
length-insert r (q ∷ qs) = ground (arith, length-insert r qs)

length-sort : (rs : List WorkspaceRecord) → length (sort rs) ≡ length rs
unfolding sort
length-sort [] = refl
length-sort (r ∷ rs) = omega (arith, length-insert r (sort rs), length-sort rs)

-- A property of each member, kept by the sort.
abbrev pub Each : (WorkspaceRecord → Type 0) → List WorkspaceRecord → Type 0
Each P [] = Unit
Each P (r ∷ rs) = P r × Each P rs

Each-insert :
    (P : WorkspaceRecord → Type 0) (r : WorkspaceRecord) (qs : List WorkspaceRecord)
    → P r
    → Each P qs
    → Each P (insert r qs)
unfolding insert
Each-insert P r [] p h = (p, tt)
Each-insert P r (q ∷ qs) p (b, h) = elim (Bool-cases (ltb_bytes q.volume_id r.volume_id)) [
  | inl e ↦ rw e (b, Each-insert P r qs p h)
  | inr e ↦ rw e (p, (b, h))
]

Each-sort :
    (P : WorkspaceRecord → Type 0) (rs : List WorkspaceRecord) → Each P rs → Each P (sort rs)
unfolding sort
Each-sort P [] h = tt
Each-sort P (r ∷ rs) (p, h) = Each-insert P r (sort rs) p (Each-sort P rs h)

module _ (d i n : Bytes) where
  -- The volume is attached to exactly this session.
  pub record OfSession (r : WorkspaceRecord) : Type 0 where
    pub binding : Attachment
    pub attachment_is : r.attachment ≡ some binding
    pub id_is : binding.session_id ≡ i
    pub name_is : binding.session_name ≡ n

  record Good (rs : List WorkspaceRecord) : Type 0 where
    pub few : length rs ≤ 4
    pub of_session : Each OfSession rs
    pub all_apart : AllApart rs

  add_record-Good :
      (o : Option Attachment) (r : WorkspaceRecord) (rs qs : List WorkspaceRecord)
      → r.attachment ≡ o
      → Good rs
      → add_record d i n r rs ≡ ok qs
      → Good qs
  unfolding add_record
  add_record-Good none r rs qs e g h = subst Good (ok-injective rs qs (rw e at h)) g
  add_record-Good (some b) r rs qs e g h =
      let k = rw e at h in
      elim (Bool-cases (eqb b.session_id i)) [
        | inr elsewhere ↦ let qs_is : rs ≡ qs = ground arith in subst Good qs_is g
        | inl this ↦
            let fresh : conflicts r rs ≡ false = ground arith in
            let named : eqb b.session_name n ≡ true = ground arith in
            let room : ltb max_session_attachments (length (r ∷ rs)) ≡ false = ground arith in
            let qs_is : r ∷ rs ≡ qs = ground arith in
            subst Good qs_is (record {
              few = ground arith;
              of_session = (
                record {
                  binding = b;
                  attachment_is = e;
                  id_is = (eqb_iff b.session_id i).0 this;
                  name_is = (eqb_iff b.session_name n).0 named;
                },
                g.of_session,
              );
              all_apart = (conflicts-ApartFrom r rs fresh, g.all_apart);
            })
      ]

  add_entry-Good :
      (name : Bytes) (doc : Json) (rs qs : List WorkspaceRecord)
      → Good rs
      → add_entry d i n name doc rs ≡ ok qs
      → Good qs
  unfolding add_entry
  add_entry-Good name doc rs qs g h = elim (Option-cases (key_of name)) [
    | inl e ↦ subst Good (ok-injective rs qs (rw (add_entry, e) at h)) g
    | inr (key, e) ↦
        let (_, k) = else-eq-ok (valid_uuid key) _ (rw (add_entry, e) at h) in
        let (r, _, added) = bind-eq-ok (load_volume d key doc) _ k in
        add_record-Good r.attachment r rs qs refl g added
  ]

  select-Good :
      (dir : Dir) (rs qs : List WorkspaceRecord) → Good rs → select d i n dir rs ≡ ok qs → Good qs
  unfolding select
  select-Good [] rs qs g h = subst Good (ok-injective rs qs h) g
  select-Good ((name, doc) ∷ rest) rs qs g h =
      let (more, now, later) = bind-eq-ok (add_entry d i n name doc rs) _ h in
      select-Good rest more qs (add_entry-Good name doc rs more g now) later

  -- The list of a session's volumes, when it is given, has at most four volumes, each attached to
  -- exactly this session by identity and name, and any two have different filesystems and mounts
  -- that do not overlap.
  pub list_session_attachments-OfSession :
      (w : World) (rs : List WorkspaceRecord)
      → list_session_attachments d i n w ≡ ok rs
      → (length rs ≤ 4) × Each OfSession rs × AllApart rs
  unfolding list_session_attachments
  list_session_attachments-OfSession w rs h =
      let (_, h1) = if-eq-ok (not (valid_uuid i) || not (valid_session_name n)) _ h in
      let (_, h2) = if-eq-ok (ltb max_registry_entries (length w.workspaces)) _ h1 in
      let (selected, found, sorted) = bind-eq-ok (select d i n w.workspaces []) _ h2 in
      let rs_is = ok-injective (sort selected) rs sorted in
      let g =
        select-Good w.workspaces [] selected
          (record { few = omega arith; of_session = tt; all_apart = tt }) found in
      subst (λ x. (length x ≤ 4) × Each OfSession x × AllApart x) rs_is
        (
          omega (arith, length-sort selected, g.few),
          Each-sort OfSession selected g.of_session,
          AllApart-sort selected g.all_apart,
        )
