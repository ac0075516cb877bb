-- ===== src/Conf/Map.antt =====
-- The tables of src/confmap.c and the search in them, for a build without the optional features.
pub mod Laws
use Prim.Native.Nat.{Ordering, compare, lt, eq, gt}
use crinit.Base.{ℕ, Bool, true, false, List, [], ◌∷◌, Option}
use crinit.Base.Str.{Str, codes}

-- `crinitConfigs_t`
pub data Config : Type 0 where
  command debug depends elos_event_poll_interval elos_port elos_server env_set : Config
  filter_define group include include_suffix includedir ioredir name provides respawn : Config
  respawn_retries shdgracep sigkeydir signatures stop_command task_file_suffix taskdir : Config
  taskdir_follow_symlinks tasks trigger trigger_rearm use_syslog use_elos user launcher_cmd : Config

-- The value of the enumeration
abbrev pub config_code : Config → ℕ
config_code command = 0
config_code debug = 1
config_code depends = 2
config_code elos_event_poll_interval = 3
config_code elos_port = 4
config_code elos_server = 5
config_code env_set = 6
config_code filter_define = 7
config_code group = 8
config_code include = 9
config_code include_suffix = 10
config_code includedir = 11
config_code ioredir = 12
config_code name = 13
config_code provides = 14
config_code respawn = 15
config_code respawn_retries = 16
config_code shdgracep = 17
config_code sigkeydir = 18
config_code signatures = 19
config_code stop_command = 20
config_code task_file_suffix = 21
config_code taskdir = 22
config_code taskdir_follow_symlinks = 23
config_code tasks = 24
config_code trigger = 25
config_code trigger_rearm = 26
config_code use_syslog = 27
config_code use_elos = 28
config_code user = 29
config_code launcher_cmd = 30

-- `crinitConfigMapping_t`. The handler of an entry is told by its `config`.
pub record ConfigMapping : Type 0 where
  pub config : Config
  pub config_key : Str
  pub array_like : Bool
  pub include_safe : Bool

abbrev entry : Config → Str → Bool → Bool → ConfigMapping
entry c k a i = record { config = c; config_key = k; array_like = a; include_safe = i }

unfoldable pub task_cfg_map : List ConfigMapping
task_cfg_map =
    entry command (codes "COMMAND") true false
    ∷ entry depends (codes "DEPENDS") true true
    ∷ entry env_set (codes "ENV_SET") true true
    ∷ entry filter_define (codes "FILTER_DEFINE") true true
    ∷ entry group (codes "GROUP") true false
    ∷ entry include (codes "INCLUDE") true false
    ∷ entry ioredir (codes "IO_REDIRECT") true true
    ∷ entry name (codes "NAME") false false
    ∷ entry provides (codes "PROVIDES") true false
    ∷ entry respawn (codes "RESPAWN") false false
    ∷ entry respawn_retries (codes "RESPAWN_RETRIES") false false
    ∷ entry stop_command (codes "STOP_COMMAND") true false
    ∷ entry trigger (codes "TRIGGER") true true
    ∷ entry trigger_rearm (codes "TRIGGER_REARM") false false
    ∷ entry user (codes "USER") false false
    ∷ []

unfoldable pub series_cfg_map : List ConfigMapping
series_cfg_map =
    entry debug (codes "DEBUG") false false
    ∷ entry elos_event_poll_interval (codes "ELOS_EVENT_POLL_INTERVAL") false false
    ∷ entry elos_port (codes "ELOS_PORT") false false
    ∷ entry elos_server (codes "ELOS_SERVER") false false
    ∷ entry env_set (codes "ENV_SET") true false
    ∷ entry filter_define (codes "FILTER_DEFINE") true false
    ∷ entry includedir (codes "INCLUDEDIR") false false
    ∷ entry include_suffix (codes "INCLUDE_SUFFIX") false false
    ∷ entry launcher_cmd (codes "LAUNCHER_CMD") false false
    ∷ entry shdgracep (codes "SHUTDOWN_GRACE_PERIOD_US") false false
    ∷ entry taskdir (codes "TASKDIR") false false
    ∷ entry taskdir_follow_symlinks (codes "TASKDIR_FOLLOW_SYMLINKS") false false
    ∷ entry tasks (codes "TASKS") true false
    ∷ entry task_file_suffix (codes "TASK_FILE_SUFFIX") false false
    ∷ entry use_elos (codes "USE_ELOS") false false
    ∷ entry use_syslog (codes "USE_SYSLOG") false false
    ∷ []

unfoldable pub kcmdline_cfg_map : List ConfigMapping
kcmdline_cfg_map =
    entry sigkeydir (codes "sigkeydir") false false
    ∷ entry signatures (codes "signatures") false false
    ∷ []

-- `strcmp`
unfoldable pub strcmp : Str → Str → Ordering
strcmp [] [] = eq
strcmp [] (y ∷ b) = lt
strcmp (x ∷ a) [] = gt
strcmp (x ∷ a) (y ∷ b) = elim (compare x y) [ lt ↦ lt | eq ↦ strcmp a b | gt ↦ gt ]

-- `bsearch` of the C library, with the comparison of the key that is searched
abbrev pub Bsearch : Type 0
Bsearch = (ConfigMapping → Ordering) → List ConfigMapping → Option ConfigMapping

-- `crinitFindConfigMapping`, with `crinitCompareConfigMappings`
unfoldable pub find_config_mapping : Bsearch → List ConfigMapping → Str → Option ConfigMapping
unfolding strcmp
find_config_mapping bsearch map key = bsearch (λ m. strcmp key m.config_key) map
