-- ===== src/Conf/Tests.antt =====
-- Conversions of concrete values, and a task from concrete entries.
use Prim.Native.Nat.{Ordering, lt, eq, gt}
use crinit.Base.{
  ◌%◌, ◌^◌, ◌≡◌, ◌≢◌, inl, inr, refl, subst, true, false, List, [], ◌∷◌, ◌++◌, Option, none, some,
  if◌then◌else◌, length, get_elem?, All, arith, ltb,
}
use crinit.Base.Str.{Str, codes, str_eq}
use crinit.Base.Int.{pos, negsuc}
use crinit.EnvSet.{EnvSet}
use crinit.EnvSet.Laws.{IsWellFormed, Put}
use crinit.World.{fault}
use crinit.World.Laws.{Ends}
use crinit.Examples.{
  daily, clock, first, two_tasks, two_tasks-IsOpen, empty_env, empty_env-IsWellFormed,
}
use crinit.Conf.Lex.{starts_name, in_name}
use crinit.Conf.StrArr.{good, bad, Mem, conv_to_str_arr}
use crinit.Conf.StrArr.RoundTrip.{written, conv_to_str_arr-written}
use crinit.Conf.Map.{
  ConfigMapping, Bsearch, task_cfg_map, series_cfg_map, kcmdline_cfg_map, find_config_mapping,
}
use crinit.Conf.Map.Laws.{IsIn, IsBsearch, lookup_key, find_config_mapping-lookup_key}
use crinit.Conf.Value.{StrTo, std_fd, redir_kind, redir_mode, conv_to_io_redir}
use crinit.Conf.Value.Redir.{IsRedir, conv_to_io_redir-IsRedir}
use crinit.Conf.EnvVar.{conv_to_env_set_member}
use crinit.Conf.EnvVar.RoundTrip.{member, conv_to_env_set_member-Put}
use crinit.Conf.EnvVar.Safety.{SetsOne, conv_to_env_set_member-SetsOne}
use crinit.Conf.Handler.{Host, misplaced, dep_of}
use crinit.Conf.Ini.{parse_conf}
use crinit.Conf.Ini.RoundTrip.{parse_conf-written}
use crinit.Conf.Ids.{user_with, user_task, group_task}
use crinit.Conf.Ids.Laws.{group_task-unknown, user_task-number}
use crinit.Conf.Load.{
  standard, included, set_entries, set_from_conf_kv_list, create_from_conf_kv_list,
}
use crinit.Conf.Load.DepLists.{HasPlacedDeps}
use crinit.Conf.Load.Depth.{set_from_conf_kv_list-depth}
use crinit.Conf.Load.Entries.{AreReadable}
use crinit.Conf.Load.Total.{IsUsable, MadeResult, create_from_conf_kv_list-Ends}

abbrev memory : Mem
memory path = true

two_words : conv_to_str_arr memory true (codes "ls  \"a b\"") ≡ good (codes "ls" ∷ codes "a b" ∷ [])
unfolding conv_to_str_arr
two_words = refl

escapes : conv_to_str_arr memory false (codes "x\\x41\\n\"") ≡ good (codes "xA\n\"" ∷ [])
unfolding conv_to_str_arr
escapes = refl

conv_to_str_arr-written_example :
    conv_to_str_arr memory true (written (codes "a \"b\"" ∷ codes "c\n" ∷ []))
    ≡ good (codes "a \"b\"" ∷ codes "c\n" ∷ [])
conv_to_str_arr-written_example =
    conv_to_str_arr-written memory (codes "a \"b\"" ∷ codes "c\n" ∷ []) refl refl (omega arith)

abbrev choose : Ordering → ConfigMapping → Option ConfigMapping → Option ConfigMapping
choose lt m o = o
choose eq m o = some m
choose gt m o = o

-- A `bsearch` that looks at one element after the other
abbrev linear : Bsearch
linear cmp [] = none
linear cmp (m ∷ l) = choose (cmp m) m (linear cmp l)

linear-found :
    (cmp : ConfigMapping → Ordering) (l : List ConfigMapping) (m : ConfigMapping)
    → linear cmp l ≡ some m
    → IsIn m l × (cmp m ≡ eq)
linear-found cmp [] m e = absurd (ground (arith, e))
linear-found cmp (n ∷ l) m e = pick (cmp n) refl e (λ h. linear-found cmp l m h)
  where
    later : IsIn m l × (cmp m ≡ eq) → IsIn m (n ∷ l) × (cmp m ≡ eq)
    later p = (inr p.0, p.1)

    pick :
        (o : Ordering)
        → cmp n ≡ o
        → choose o n (linear cmp l) ≡ some m
        → (linear cmp l ≡ some m → IsIn m l × (cmp m ≡ eq))
        → IsIn m (n ∷ l) × (cmp m ≡ eq)
    pick lt h e k = later (k e)
    pick eq h e k = (inl (cc e), ground (arith, h, e))
    pick gt h e k = later (k e)

linear-missed :
    (cmp : ConfigMapping → Ordering) (l : List ConfigMapping)
    → linear cmp l ≡ none
    → All (λ m. cmp m ≢ eq) l
linear-missed cmp [] e = tt
linear-missed cmp (n ∷ l) e = pick (cmp n) refl e (λ h. linear-missed cmp l h)
  where
    pick :
        (o : Ordering)
        → cmp n ≡ o
        → choose o n (linear cmp l) ≡ none
        → (linear cmp l ≡ none → All (λ m. cmp m ≢ eq) l)
        → All (λ m. cmp m ≢ eq) (n ∷ l)
    pick lt h e k = (λ g. cc (g, h), k e)
    pick eq h e k = absurd (ground (arith, e))
    pick gt h e k = (λ g. cc (g, h), k e)

linear-IsBsearch : IsBsearch linear
linear-IsBsearch = record {
  found = λ cmp l m p e. linear-found cmp l m e;
  missed = λ cmp l p e. linear-missed cmp l e;
}

find_config_mapping-lookup_key_example :
    (find_config_mapping linear task_cfg_map (codes "NAME")
      ≡ lookup_key (codes "NAME") task_cfg_map)
    × (find_config_mapping linear series_cfg_map (codes "NAME")
        ≡ lookup_key (codes "NAME") series_cfg_map)
    × (find_config_mapping linear kcmdline_cfg_map (codes "NAME")
        ≡ lookup_key (codes "NAME") kcmdline_cfg_map)
find_config_mapping-lookup_key_example =
    find_config_mapping-lookup_key linear (codes "NAME") linear-IsBsearch

-- The number 4294967296 as `strtoul` reads it; no other text is a number.
abbrev whole : {A : Type 0} → A → Str → StrTo A
whole v s = record { value = v; consumed = length s; errno = false }

conv_to_io_redir-IsRedir_example : IsRedir (record {
  new_fd = pos 1;
  old_fd = negsuc 0;
  path = some (codes "/log");
  oflags = 1089;
  mode = 420;
  fifo = false;
})
unfolding conv_to_io_redir conv_to_str_arr str_eq std_fd redir_kind redir_mode
conv_to_io_redir-IsRedir_example =
    conv_to_io_redir-IsRedir memory (whole 420) false (codes "STDOUT \"/log\" APPEND") _ refl

conv_to_env_set_member-Put_example :
    Put empty_env
      (codes "HOME")
      (codes "/a$b")
      (conv_to_env_set_member memory empty_env (member (codes "HOME") (codes "/a$b")))
unfolding starts_name in_name
conv_to_env_set_member-Put_example =
    conv_to_env_set_member-Put memory empty_env (codes "HOME") (codes "/a$b") refl refl refl
      empty_env-IsWellFormed (refl, (refl, (refl, (refl, tt)))) (omega arith)

conv_to_env_set_member-SetsOne_example :
    SetsOne empty_env (conv_to_env_set_member memory empty_env (codes "A=B \"c\""))
conv_to_env_set_member-SetsOne_example =
    conv_to_env_set_member-SetsOne memory empty_env (codes "A=B \"c\"") empty_env-IsWellFormed

abbrev nested : List (Str × Str)
nested = (codes "INCLUDE", codes "more") ∷ []

-- A system with the user and the group 0 called root and no others, and one file with an INCLUDE
abbrev host : Host
host = record {
  bsearch = linear;
  strtol = whole (pos 4294967296);
  strtoul = whole 4294967296;
  strtoul_octal = whole 420;
  errno = false;
  is_alpha = λ c. ltb 64 c;
  uid_of = λ name. none;
  user_name = λ uid. some (codes "root");
  gid_of = λ name. if str_eq name (codes "root") then some 0 else none;
  group_name = λ gid. some (codes "root");
  parse_timer = λ name. daily;
  gmtime = clock;
  now_sec = pos 0;
  now_nsec = 0;
  dup_timer = λ name. true;
  glob_env = some empty_env;
  glob_filters = some empty_env;
  incl_dir = some (codes "/etc");
  incl_suffix = some (codes ".crincl");
  parse_conf = λ path. some nested;
}

user_task-number_example :
    user_task host memory (codes "4294967296") first
    ≡ some (user_with first (4294967296 % 2 ^ 32) (codes "root"))
user_task-number_example =
    user_task-number host memory (codes "4294967296") (codes "root") first 4294967296 refl refl refl
      (λ e. cc e) refl refl refl

group_task-unknown_example :
    get_elem?
      (record first { group = 0; groupname = some (codes "root"); sup_groups = 0 ∷ [] }).sup_groups
      0
    ≡ some 0
unfolding group_task str_eq
group_task-unknown_example =
    group_task-unknown host memory (codes "root") (codes "video" ∷ []) first
      (record first { group = 0; groupname = some (codes "root"); sup_groups = 0 ∷ [] }) 0
      (codes "video") refl refl refl refl

abbrev one_include : List (Str × Str)
one_include =
    (codes "NAME", codes "net")
    ∷ (codes "COMMAND", codes "/bin/ip up")
    ∷ (codes "INCLUDE", codes "base")
    ∷ []

set_from_conf_kv_list-depth_example :
    (set_entries host (λ mem src list d w. fault) memory included none one_include
      ≡ set_from_conf_kv_list host 0 memory included none one_include)
    × (set_from_conf_kv_list host 4 memory standard none one_include
        ≡ set_from_conf_kv_list host 1 memory standard none one_include)
set_from_conf_kv_list-depth_example =
    set_from_conf_kv_list-depth host 3 (λ mem src list d w. fault) memory standard none one_include
      linear-IsBsearch

same_env : (env : EnvSet) → some empty_env ≡ some env → empty_env ≡ env
same_env env e = cc e

same_file : (src : List (Str × Str)) → some nested ≡ some src → nested ≡ src
same_file src e = cc e

more_placed : HasPlacedDeps (codes "more")
unfolding conv_to_str_arr dep_of
more_placed = (refl, tt)

name_placed : HasPlacedDeps (codes "net")
unfolding conv_to_str_arr dep_of
name_placed = (refl, tt)

command_placed : HasPlacedDeps (codes "/bin/ip up")
unfolding conv_to_str_arr dep_of
command_placed = (refl, (refl, tt))

include_placed : HasPlacedDeps (codes "base")
unfolding conv_to_str_arr dep_of
include_placed = (refl, tt)

-- The name of this dependency would be freed at a wrong place.
leading_colon : dep_of (codes ":a") ≡ misplaced
unfolding dep_of
leading_colon = refl

host-IsUsable : IsUsable host
host-IsUsable = record {
  searches = linear-IsBsearch;
  copies_timers = λ name. refl;
  readable_files = λ path src e.
      subst (λ l. AreReadable host l × (l ≢ [])) (same_file src e)
        (((omega arith, λ m f g. more_placed), tt), λ f. cc f);
  global_env = λ env e. subst IsWellFormed (same_env env e) empty_env-IsWellFormed;
}

create_from_conf_kv_list-Ends_example :
    Ends MadeResult (create_from_conf_kv_list host memory one_include two_tasks)
create_from_conf_kv_list-Ends_example =
    create_from_conf_kv_list-Ends host memory one_include two_tasks host-IsUsable
      (
        (omega arith, λ m f g. name_placed),
        ((omega arith, λ m f g. command_placed), ((omega arith, λ m f g. include_placed), tt)),
      )
      (λ e. cc e) two_tasks-IsOpen

-- A file without an option gives one element whose key is not set.
no_option : parse_conf (whole 0) memory [] true ≡ good (none ∷ [])
unfolding parse_conf
no_option = refl

unordered_array : parse_conf (whole 0) memory ((codes "A[1]", codes "x") ∷ []) true ≡ bad
unfolding parse_conf
unordered_array = refl

parse_conf-written_example :
    parse_conf
      (whole 0)
      memory
      ((codes "NAME", 34 ∷ codes "net" ++ 34 ∷ [])
        ∷ (codes "COMMAND[]", 34 ∷ codes "/bin/a \"b\"" ++ 34 ∷ [])
        ∷ [])
      true
    ≡ good (some (codes "NAME", codes "net") ∷ some (codes "COMMAND", codes "/bin/a \"b\"") ∷ [])
parse_conf-written_example =
    parse_conf-written (whole 0) memory (false, codes "NAME", codes "net")
      ((true, codes "COMMAND", codes "/bin/a \"b\"") ∷ []) (λ path. refl) (omega arith)
