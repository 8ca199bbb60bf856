-- ===== src/Executor/Plan/Cache.antt =====
-- The marker of a preparation, from one run to the next.
use patrol_x.Base.{◌≡◌, false, not, List, some}
use patrol_x.Base.Dict.{remove}
use patrol_x.Base.Lists.{is_nil}
use patrol_x.Base.Text.{Text}
use patrol_x.Rules.{prepare}
use patrol_x.Rules.Contract.{Inspector, PrepareSpec}
use patrol_x.Parallel.{UnitPlan}
use patrol_x.Executor.{Surroundings, Context}
use patrol_x.Executor.Plan.{matched_files, matched_bytes_of, is_owner_name, blank_plan}

-- Why a plan has a request: the owner's files are matched, its name is legal, and its marker is gone.
record Requested (env : Surroundings) (owner : Inspector) (prep : PrepareSpec) (ctx : Context)
    (ctx' : Context) (plan : UnitPlan) (files : List Text) : Type 0 where
  matched : matched_files env owner ≡ some files
  some_file : is_nil files ≡ false
  legal : not (is_owner_name owner.code) ≡ false
  context : ctx' ≡ record ctx { markers = remove owner.code ctx.markers }
  owner_code : plan.owner_code ≡ owner.code

-- The owner's files, its legal name and its marker settle the next plan.
abbrev again_matched : Surroundings → Inspector → PrepareSpec → List Text → Context → UnitPlan
again_matched env owner prep files ctx = record (blank_plan prepare prep.code owner.code) {
  matched_bytes = matched_bytes_of env files;
}
