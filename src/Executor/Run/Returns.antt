-- ===== src/Executor/Run/Returns.antt =====
-- A whole run returns.
use patrol_x.Base.{◌<◌, List}
use patrol_x.Base.Lists.{keep, length}
use patrol_x.Base.Text.{Text}
use patrol_x.Parallel.{Pools, Pending}
use patrol_x.Executor.{Executor}

-- `wait` gives at least one future of a window that is not empty.
abbrev pub Waits : Pools → Type 0
Waits pools = (l : List Pending) → 0 < length l → 0 < length (keep (pools.is_done l) l)
