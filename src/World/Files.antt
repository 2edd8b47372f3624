-- ===== src/World/Files.antt =====
-- The laws of a directory of files.
use mathlib.Core.List.{append_cancel_right}
use boxwarden.Prelude.{
  Bool-cases, Bytes, List, Option-cases, Outcome, [], ap, arith, codes, eqb, eqb_iff, err, false,
  if◌then◌else◌, inl, inr, length, length-append, none, refl, some, ℕ, ◌∷◌, ◌≡◌, ◌≢◌, ◌⊎◌,
}
use boxwarden.Json.{Json}
use boxwarden.World.{
  Dir, Fate, Registry, World, change, commit, create_at, create_file, drop_file, find_file,
  json_name, key_of, put_file, remove_file, replace_file,
}

pub find_file-put_file :
    (k j : Bytes) (v : Json) (d : Dir)
    → find_file j (put_file k v d) ≡ (if eqb k j then some v else find_file j d)
unfolding find_file put_file
find_file-put_file k j v [] = refl
find_file-put_file k j v ((i, u) ∷ d) =
    ground (arith, eqb_iff k j, eqb_iff i k, eqb_iff i j, find_file-put_file k j v d)

pub find_file-drop_file :
    (k j : Bytes) (d : Dir)
    → find_file j (drop_file k d) ≡ (if eqb k j then none else find_file j d)
unfolding find_file drop_file
find_file-drop_file k j [] = ground arith
find_file-drop_file k j ((i, u) ∷ d) =
    ground (arith, eqb_iff k j, eqb_iff i k, eqb_iff i j, find_file-drop_file k j d)

-- Two file names are equal only for one key.
pub json_name-injective : (a b : Bytes) → json_name a ≡ json_name b → a ≡ b
json_name-injective a b = append_cancel_right a b (codes ".json")

not_suffix_alone : (c : ℕ) (cs : Bytes) → eqb (c ∷ json_name cs) (codes ".json") ≡ false
not_suffix_alone c cs = elim (Bool-cases (eqb (c ∷ json_name cs) (codes ".json"))) [
  | inl e ↦
      let same_length = ap (λ s. length s) ((eqb_iff (c ∷ json_name cs) (codes ".json")).0 e) in
      absurd (omega (arith, same_length, length-append {0} cs (codes ".json")))
  | inr e ↦ e
]

-- A record's file name stands for the record's volume.
pub key_of-json_name : (k : Bytes) → key_of (json_name k) ≡ some k
unfolding key_of
key_of-json_name [] = unfold eqb in refl
key_of-json_name (c ∷ cs) = rw (not_suffix_alone c cs) (rw (key_of-json_name cs, key_of))

-- What becomes of the registry of rebuilds by one write to it.
pub record OnlyRebuilds (f : Dir → Dir) (w : World) (step : Outcome (Unit {0}) × World)
    : Type 0 where
  pub sessions_kept : step.1.sessions ≡ w.sessions
  pub workspaces_kept : step.1.workspaces ≡ w.workspaces
  pub rebuilds_are :
      ((step.0 ≡ err) × (step.1.rebuilds ≡ w.rebuilds)) ⊎ (step.1.rebuilds ≡ f w.rebuilds)

commit-rebuilds :
    (fs : List Fate) (f : Dir → Dir) (w : World)
    → OnlyRebuilds f w (commit fs (change Registry.rebuilds f) w)
commit-rebuilds [] f w = record {
  sessions_kept = refl;
  workspaces_kept = refl;
  rebuilds_are = inr refl;
}
commit-rebuilds (Fate.durable ∷ fs) f w = record {
  sessions_kept = refl;
  workspaces_kept = refl;
  rebuilds_are = inr refl;
}
commit-rebuilds (Fate.unsynced ∷ fs) f w = record {
  sessions_kept = refl;
  workspaces_kept = refl;
  rebuilds_are = inr refl;
}
commit-rebuilds (Fate.refused ∷ fs) f w = record {
  sessions_kept = refl;
  workspaces_kept = refl;
  rebuilds_are = inl (refl, refl);
}
commit-rebuilds (Fate.torn ∷ fs) f w = record {
  sessions_kept = refl;
  workspaces_kept = refl;
  rebuilds_are = inl (refl, refl);
}

pub replace_file-rebuilds :
    (k : Bytes) (v : Json) (w : World)
    → OnlyRebuilds (put_file k v) w (replace_file Registry.rebuilds k v w)
unfolding replace_file
replace_file-rebuilds k v w = commit-rebuilds w.fates (put_file k v) w

pub remove_file-rebuilds :
    (k : Bytes) (w : World) → OnlyRebuilds (drop_file k) w (remove_file Registry.rebuilds k w)
unfolding remove_file
remove_file-rebuilds k w = commit-rebuilds w.fates (drop_file k) w

-- Names apart stay apart as file names.
pub json_name-apart : (a b : Bytes) → a ≢ b → eqb (json_name a) (json_name b) ≡ false
json_name-apart a b ne = elim (Bool-cases (eqb (json_name a) (json_name b))) [
  | inl e ↦ absurd (ne (json_name-injective a b ((eqb_iff (json_name a) (json_name b)).0 e)))
  | inr e ↦ e
]

-- What becomes of the registry of rebuilds by the creation of one file: nothing, or it was not
-- there, and is now whole or torn, torn only by a failure.
pub record Creates (k : Bytes) (v : Json) (w : World) (step : Outcome (Unit {0}) × World)
    : Type 0 where
  pub was_new : find_file k w.rebuilds ≡ none
  pub contents : Json
  pub rebuilds_are : step.1.rebuilds ≡ put_file k contents w.rebuilds
  pub whole_or_torn : (contents ≡ v) ⊎ ((contents ≡ Json.other) × (step.0 ≡ err))

pub create_file-Creates :
    (k : Bytes) (v : Json) (w : World)
    → let step = create_file Registry.rebuilds k v w in
      ((step.0 ≡ err) × (step.1.rebuilds ≡ w.rebuilds)) ⊎ Creates k v w step
unfolding create_file
create_file-Creates k v w = elim (Option-cases (find_file k w.rebuilds)) [
  | inr (x, there) ↦ rw there (inl (refl, refl))
  | inl new ↦ rw new (create w.fates new)
]
  where
    create :
        (fs : List Fate)
        → find_file k w.rebuilds ≡ none
        → let step = create_at fs Registry.rebuilds k v w in
          ((step.0 ≡ err) × (step.1.rebuilds ≡ w.rebuilds)) ⊎ Creates k v w step
    create [] new =
        inr (record { was_new = new; contents = v; rebuilds_are = refl; whole_or_torn = inl refl })
    create (Fate.durable ∷ fs) new =
        inr (record { was_new = new; contents = v; rebuilds_are = refl; whole_or_torn = inl refl })
    create (Fate.unsynced ∷ fs) new =
        inr (record { was_new = new; contents = v; rebuilds_are = refl; whole_or_torn = inl refl })
    create (Fate.torn ∷ fs) new = inr (record {
      was_new = new;
      contents = Json.other;
      rebuilds_are = refl;
      whole_or_torn = inr (refl, refl);
    })
    create (Fate.refused ∷ fs) new = inl (refl, refl)
