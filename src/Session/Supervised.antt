-- ===== src/Session/Supervised.antt =====
-- What the start of a session takes from outside, beside the locks and the observer: the supervisor
-- of a generation (internal/supervisor/request.go), the workspace operations, recipe intents, the
-- admission of host and management CA, a source of generations, and the clock. Times are numbers,
-- and 0 is the zero time.
use boxwarden.Prelude.{Bool, Bytes, Option, Outcome, ℕ, ℕ_discrete}
use boxwarden.Session.Outside.{Outside}
use boxwarden.Session.Rebuild.Journal.{RebuildJournal}
use boxwarden.Session.Types.{SessionRecord}
use boxwarden.World.{M, World}

pub record Binding : Type 0 where
  pub domain : Bytes
  pub session_id : Bytes
  pub backend_kind : Bytes
  pub backend_object : Bytes
  pub generation : Bytes

unfoldable pub Binding-discrete : Discrete Binding
Binding-discrete = hlevel ℕ_discrete

pub record Snapshot : Type 0 where
  pub binding : Binding
  pub backend_running : Bool
  pub serial_healthy : Bool
  pub pin_present : Bool
  pub certificate_current : Bool
  pub probe_ok : Bool
  pub zone_matches : Bool
  pub observed_at : ℕ

pub record Supervised : Type 0 where
  pub outside : Outside
  pub load_recipe_intent : Bytes → World → Outcome (Unit {0})
  pub admit_prerequisites : M (Unit {0})
  pub verify_uses : SessionRecord → M (Unit {0})
  pub prepare_start : SessionRecord → Bytes → Option RebuildJournal → M SessionRecord
  pub snapshot : Binding → M Snapshot
  pub ready : Binding → M Snapshot
  -- The launch of a generation; its paths are left out, and its session's name stays.
  pub start_exact : Binding → Bytes → M Snapshot
  pub stop_exact : Binding → M (Unit {0})
  pub new_generation : M Bytes
  pub now : M ℕ
