-- ===== src/Conf/Ids.antt =====
-- The handlers of src/confhdl.c for USER and GROUP, with their questions to the databases of users and
-- groups.
pub mod Laws
use crinit.Base.{
  ℕ, zero, suc, ◌+◌, Bool, true, false, not, ◌&&◌, List, [], ◌∷◌, Option, none, some, ◌==◌,
  if◌then◌else◌,
}
use crinit.Base.Str.{Str}
use crinit.Base.Int.{ℤ, pos, negsuc}
use crinit.Task.{Task}
use crinit.World.{M, return, branch, on_option}
use crinit.Conf.StrArr.{Conv, Mem, part, first_of, conv_to_str_arr}
use crinit.Conf.Value.{conv_to_integer, conv_to_integer_ui}
use crinit.Conf.Handler.{Host, Draft, on_conv, fail, keep}

-- `temp < 0`, for the number that the first conversion gives
abbrev pub not_negative : Option ℤ → Bool
not_negative none = false
not_negative (some (pos n)) = true
not_negative (some (negsuc n)) = false

-- The value is copied, or the call fails.
abbrev pub duplicated : Bool → Str → Option Str
duplicated true s = some s
duplicated false s = none

abbrev pub and_then : {A B : Type 0} → Option A → (A → Option B) → Option B
and_then none f = none
and_then (some a) f = f a

-- What a member of GROUP stands for
pub data GroupArg : Type 0 where
  known : ℕ → Str → GroupArg
  unknown refused : GroupArg

unfoldable pub user_with : Task → ℕ → Str → Task
user_with t uid name = record t { user = uid; username = some name }

-- The supplementary groups: the array is zeroed, and an unknown name leaves its element.
unfoldable pub sup_gid : GroupArg → Option ℕ
sup_gid (known gid name) = some gid
sup_gid unknown = some 0
sup_gid refused = none

-- The first member is the group of the task.
unfoldable pub first_group : GroupArg → Task → Option Task
first_group (known gid name) t = some (record t { group = gid; groupname = some name })
first_group unknown t = some t
first_group refused t = none

-- A group must have been found, now or by an earlier GROUP.
unfoldable pub needs_name : Task → Option Str → Option Task
needs_name t none = none
needs_name t (some name) = some t

module _ (host : Host) where
  -- `crinitUsernameToUid` and `crinitGroupnameToGid`: with a buffer the databases are asked.
  unfoldable pub username_to_uid : Mem → Str → Option ℕ
  username_to_uid mem name = if mem (0 ∷ []) then host.uid_of name else none

  unfoldable pub groupname_to_gid : Mem → Str → Option ℕ
  groupname_to_gid mem name = if mem (0 ∷ []) then host.gid_of name else none

  -- `crinitUidToUsername` and `crinitGidToGroupname`: the name is copied.
  unfoldable pub uid_to_username : Mem → ℕ → Option Str
  uid_to_username mem uid =
      if mem (0 ∷ []) then and_then (host.user_name uid) (duplicated (mem (1 ∷ []))) else none

  unfoldable pub gid_to_groupname : Mem → ℕ → Option Str
  gid_to_groupname mem gid =
      if mem (0 ∷ []) then and_then (host.group_name gid) (duplicated (mem (1 ∷ []))) else none

  -- A number that is not negative, as an `unsigned int`
  unfoldable pub numeric_id : Str → Option ℕ
  numeric_id val =
      if not_negative (conv_to_integer host.strtol val)
      then conv_to_integer_ui host.strtoul val
      else none

  -- USER as a number
  unfoldable pub numeric_user : Mem → Str → Task → Option Task
  unfolding numeric_id uid_to_username user_with
  numeric_user mem val t =
      and_then (numeric_id val)
        λ uid. and_then (uid_to_username mem uid) λ name. some (user_with t uid name)

  -- A name that is not known is tried as a number.
  unfoldable pub named_user : Mem → Str → Task → Option ℕ → Option Task
  unfolding numeric_user user_with
  named_user mem val t none = numeric_user (part mem 2) val t
  named_user mem val t (some uid) =
      and_then (duplicated (mem (1 ∷ [])) val) λ name. some (user_with t uid name)

  unfoldable pub user_task : Mem → Str → Task → Option Task
  unfolding named_user numeric_user username_to_uid
  user_task mem val t =
      if host.is_alpha (first_of val)
      then named_user mem val t (username_to_uid (part mem 0) val)
      else numeric_user (part mem 2) val t

  -- `crinitCfgUserHandler`
  unfoldable pub user_handler : Mem → Str → Draft → M (Option Draft)
  unfolding user_task
  user_handler mem val d = on_option (user_task mem val d.task) fail (keep d)

  unfoldable pub numeric_group : Mem → Option ℕ → GroupArg
  unfolding gid_to_groupname
  numeric_group mem none = refused
  numeric_group mem (some gid) = elim (gid_to_groupname mem gid) [
    | none ↦ refused
    | some name ↦ known gid name
  ]

  unfoldable pub named_group : Mem → Bool → Str → Option ℕ → GroupArg
  named_group mem first name none = unknown
  named_group mem first name (some gid) =
      if not first then known gid name else if mem (1 ∷ []) then known gid name else refused

  -- A member of the list; only the name of the first one is copied.
  unfoldable pub group_arg : Mem → Bool → Str → GroupArg
  unfolding numeric_group named_group groupname_to_gid numeric_id
  group_arg mem first s =
      if host.is_alpha (first_of s)
      then named_group mem first s (groupname_to_gid (part mem 0) s)
      else numeric_group (part mem 2) (numeric_id s)

  unfoldable pub sup_gids : Mem → ℕ → List Str → Option (List ℕ)
  unfolding sup_gid group_arg
  sup_gids mem i [] = some []
  sup_gids mem i (s ∷ args) =
      let rest : Option (List ℕ) = sup_gids mem (suc i) args in
      and_then (sup_gid (group_arg (part mem i) false s))
        λ gid. and_then rest λ gids. some (gid ∷ gids)

  unfoldable pub with_sup : Mem → List Str → Task → Option Task
  unfolding sup_gids
  with_sup mem [] t = some t
  with_sup mem (s ∷ args) t =
      if mem (1 ∷ [])
      then and_then (sup_gids (part mem 3) 0 (s ∷ args))
          (λ gids. some (record t { sup_groups = gids }))
      else none

  unfoldable pub group_task : Mem → List Str → Task → Option Task
  unfolding first_group with_sup needs_name group_arg
  group_task mem [] t = needs_name t t.groupname
  group_task mem (s ∷ args) t =
      and_then (first_group (group_arg (part mem 2) true s) t)
        λ u. and_then (with_sup mem args u) λ v. needs_name v v.groupname

  -- `crinitCfgGroupHandler`
  unfoldable pub group_handler : Mem → Str → Draft → M (Option Draft)
  unfolding group_task
  group_handler mem val d =
      on_conv (conv_to_str_arr (part mem 0) true val)
        λ args. on_option (group_task mem args d.task) fail (keep d)
