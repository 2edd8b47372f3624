-- ===== src/World.antt =====
-- The durable state of one domain: the three registries of records as directories of JSON files,
-- and the fates of the coming writes. A write is atomic (openRoot, temporary file, rename, sync in
-- the sources): it may be refused before the rename, or fail to sync behind it, when the new file
-- is visible although the writer returns an error. `torn` is the fate of a file that is written in
-- place and not to its end; a torn temporary file is removed.
-- A directory that is missing is an empty one: every reader in the sources treats both alike.
pub mod Files
pub mod Runs
use boxwarden.Prelude.{
  Bool, Bytes, List, Option, Outcome, [], codes, eqb, err, false, if◌then◌else◌, is_some, none, ok,
  some, true, ◌&&◌, ◌++◌, ◌==◌, ◌||◌, ◌∷◌,
}
use boxwarden.Json.{Json}

pub data Fate : Type 0 where
  durable : Fate
  refused : Fate
  unsynced : Fate
  torn : Fate

pub data Registry : Type 0 where
  sessions : Registry
  workspaces : Registry
  rebuilds : Registry

abbrev pub Dir : Type 0
Dir = List (Bytes × Json)

pub record World : Type 0 where
  pub sessions : Dir
  pub workspaces : Dir
  pub rebuilds : Dir
  pub fates : List Fate

-- An operation on the durable state. What it wrote stays, also when it fails.
abbrev pub M : Type 0 → Type 0
M A = World → Outcome A × World

abbrev pub pure : {A : Type 0} → A → M A
pure a w = (ok a, w)

abbrev pub fail : {A : Type 0} → M A
fail w = (err, w)

abbrev pub lift : {A : Type 0} → Outcome A → M A
lift o w = (o, w)

abbrev pub asks : {A : Type 0} → (World → Outcome A) → M A
asks f w = (f w, w)

abbrev pub then_with : {A B : Type 0} → Outcome A × World → (A → M B) → Outcome B × World
then_with (ok a, w) f = f a w
then_with (err, w) f = (err, w)

infixl 5 ◌>>=◌ ◌>>◌
abbrev pub ◌>>=◌ : {A B : Type 0} → M A → (A → M B) → M B
◌>>=◌ m f w = then_with (m w) f

abbrev pub ◌>>◌ : {B : Type 0} → M (Unit {0}) → M B → M B
m >> k = m >>= λ _. k

unfoldable pub find_file : Bytes → Dir → Option Json
find_file k [] = none
find_file k ((j, v) ∷ d) = if eqb j k then some v else find_file k d

unfoldable pub put_file : Bytes → Json → Dir → Dir
put_file k v [] = (k, v) ∷ []
put_file k v ((j, u) ∷ d) = if eqb j k then (k, v) ∷ d else (j, u) ∷ put_file k v d

unfoldable pub drop_file : Bytes → Dir → Dir
drop_file k [] = []
drop_file k ((j, u) ∷ d) = if eqb j k then drop_file k d else (j, u) ∷ drop_file k d

abbrev pub directory : Registry → World → Dir
directory Registry.sessions w = w.sessions
directory Registry.workspaces w = w.workspaces
directory Registry.rebuilds w = w.rebuilds

abbrev pub change : Registry → (Dir → Dir) → World → World
change Registry.sessions f w = record w { sessions = f w.sessions }
change Registry.workspaces f w = record w { workspaces = f w.workspaces }
change Registry.rebuilds f w = record w { rebuilds = f w.rebuilds }

-- The fate of the next write; with none left, writes are durable.
abbrev pub commit : List Fate → (World → World) → World → Outcome (Unit {0}) × World
commit [] f w = (ok tt, f w)
commit (Fate.durable ∷ fs) f w = (ok tt, f (record w { fates = fs }))
commit (Fate.refused ∷ fs) f w = (err, record w { fates = fs })
commit (Fate.unsynced ∷ fs) f w = (err, f (record w { fates = fs }))
commit (Fate.torn ∷ fs) f w = (err, record w { fates = fs })

unfoldable pub replace_file : Registry → Bytes → Json → M (Unit {0})
replace_file reg k v w = commit w.fates (change reg (put_file k v)) w

unfoldable pub remove_file : Registry → Bytes → M (Unit {0})
remove_file reg k w = commit w.fates (change reg (drop_file k)) w

-- The sync of a directory alone: it changes no file.
abbrev pub synced : List Fate → World → Outcome (Unit {0}) × World
synced [] w = (ok tt, w)
synced (Fate.durable ∷ fs) w = (ok tt, record w { fates = fs })
synced (_ ∷ fs) w = (err, record w { fates = fs })

unfoldable pub sync_directory : M (Unit {0})
sync_directory w = synced w.fates w

abbrev pub json_name : Bytes → Bytes
json_name key = key ++ codes ".json"

-- A file that is created in place, under a name that must be new.
abbrev pub create_at : List Fate → Registry → Bytes → Json → M (Unit {0})
create_at [] reg k v w = (ok tt, change reg (put_file k v) w)
create_at (Fate.durable ∷ fs) reg k v w =
    (ok tt, change reg (put_file k v) (record w { fates = fs }))
create_at (Fate.refused ∷ fs) reg k v w = (err, record w { fates = fs })
create_at (Fate.unsynced ∷ fs) reg k v w =
    (err, change reg (put_file k v) (record w { fates = fs }))
create_at (Fate.torn ∷ fs) reg k v w =
    (err, change reg (put_file k Json.other) (record w { fates = fs }))

unfoldable pub create_file : Registry → Bytes → Json → M (Unit {0})
unfolding find_file
create_file reg k v w =
    if is_some (find_file k (directory reg w)) then (err, w) else create_at w.fates reg k v w

-- `strings.HasPrefix`
unfoldable pub has_prefix : Bytes → Bytes → Bool
has_prefix s [] = true
has_prefix [] (p ∷ ps) = false
has_prefix (c ∷ cs) (p ∷ ps) = c == p && has_prefix cs ps

-- The key that a file name stands for, if it ends in .json.
unfoldable pub key_of : Bytes → Option Bytes
key_of [] = none
key_of (c ∷ cs) =
    if eqb (c ∷ cs) (codes ".json")
    then some []
    else elim (key_of cs) [ none ↦ none | some key ↦ some (c ∷ key) ]

-- `strings.Contains`
unfoldable pub has_infix : Bytes → Bytes → Bool
unfolding has_prefix
has_infix [] p = has_prefix [] p
has_infix (c ∷ cs) p = has_prefix (c ∷ cs) p || has_infix cs p
