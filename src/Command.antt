-- ===== src/Command.antt =====
-- src/rtimcmd.c: the handlers of the commands, each of which makes a response or none.
pub mod Control
pub mod Process
pub mod Notify
pub mod Report
pub mod ShowTask
pub mod Exec
mod Tests
use crinit.Base.{
  ℕ, ◌≡◌, Bool, true, false, ◌&&◌, List, [], ◌∷◌, Option, none, some, if◌then◌else◌, Status, ok,
  err,
}
use crinit.Base.Str.{Str, codes}
use crinit.World.{World, Outcome, ret, M, return}
use crinit.Rtim.{RtimOp}
use crinit.Rtim.Cmd.{RtimCmd}

-- The allocations of a handler itself: its first one, that of the array of a list, and the two of
-- the response
pub record Memory : Type 0 where
  pub temporary : Bool
  pub array : Bool
  pub response : ℕ → Bool

-- `CRINIT_RTIMCMD_RES_OK` and `CRINIT_RTIMCMD_RES_ERR`
abbrev pub res_ok : Str
res_ok = codes "RES_OK"

abbrev pub res_err : Str
res_err = codes "RES_ERR"

-- What `crinitBuildRtimCmd` gives, with the strings at its pointers
abbrev pub build_cmd : (ℕ → Bool) → RtimOp → List Str → Option RtimCmd
build_cmd alloc op args =
    if alloc 0 && alloc 1 then some (record { op = op; args = args }) else none

abbrev pub respond : Memory → RtimOp → List Str → M (Option RtimCmd)
respond mem op args = return {A = Option RtimCmd} (build_cmd mem.response op args)

-- A positive response without a value, and a negative one with its reason
abbrev pub succeed : Memory → RtimOp → M (Option RtimCmd)
succeed mem op = respond mem op (res_ok ∷ [])

abbrev pub refuse : Memory → RtimOp → Str → M (Option RtimCmd)
refuse mem op reason = respond mem op (res_err ∷ reason ∷ [])

abbrev pub wrong_number : Str
wrong_number = codes "Wrong number of arguments."

abbrev pub no_memory : Str
no_memory = codes "Memory allocation error."

-- The test `cmd->argc != 1`, with the argument
abbrev pub with_argument :
    RtimCmd → M (Option RtimCmd) → (Str → M (Option RtimCmd)) → M (Option RtimCmd)
with_argument cmd m f = elim cmd.args [ [] ↦ m | a ∷ rest ↦ elim rest [ [] ↦ f a | b ∷ more ↦ m ] ]
