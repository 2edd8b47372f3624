-- ===== src/Session/Outside.antt =====
-- What the session lifecycle takes from outside: locks (internal/lock), the observer and deleter of
-- the backend (internal/backend), the supervisor of a generation (internal/supervisor), the release
-- of workspace uses, and the gate and the finalizer that deletion is given as callbacks. They are
-- parameters, and each may change the world, since others act while it runs.
use boxwarden.Prelude.{Bool, Bytes}
use boxwarden.Backend.{Observation}
use boxwarden.Session.Types.{SessionRecord}
use boxwarden.World.{M}

pub record Outside : Type 0 where
  pub observe : Bytes → M Observation
  pub acquire_transition : Bytes → Bytes → M (Unit {0})
  pub acquire_session : Bytes → Bytes → M (Unit {0})
  pub release_session : M (Unit {0})
  pub release_transition : M (Unit {0})
  pub quiesced : SessionRecord → M Bool
  -- Stops a generation, and says how; `[]` where there is nothing to say.
  pub stop_generation : SessionRecord → M Bytes
  pub release_uses : SessionRecord → M (Unit {0})
  pub delete_object : Bytes → M (Unit {0})
  pub delete_gate : SessionRecord → M (Unit {0}) → M (Unit {0})
  pub finalize : SessionRecord → M (Unit {0})
  pub coerce : Bytes → Bytes
