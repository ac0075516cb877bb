-- ===== src/Conf/Load/Depth.antt =====
-- Files are included one deep, because INCLUDE may not stand in an included file.
use crinit.Base.{
  ℕ, zero, suc, ◌≡◌, refl, ap, Bool, true, false, not, ◌&&◌, ◌||◌, List, [], ◌∷◌, Option, none,
  some, All, arith,
}
use crinit.Base.Str.{Str}
use crinit.World.{blocked, M, ◌>>=◌, branch, on_option}
use crinit.Conf.StrArr.{Mem, part}
use crinit.Conf.Map.{Config, ConfigMapping, include, task_cfg_map, find_config_mapping}
use crinit.Conf.Map.Laws.{IsBsearch, All-IsIn, find_config_mapping-IsIn}
use crinit.Conf.Handler.{Host, Draft, fail}
use crinit.Conf.Load.{
  TaskType, included, Options, mark, Merge, task_handler, import_arr, load_entries, set_entries,
  merge_file, set_from_conf_kv_list, given,
}

abbrev is_include : Config → Bool
is_include include = true
is_include _ = false

-- No entry that may stand in an included file is INCLUDE.
safe_entries : All (λ m. (not m.include_safe || not (is_include m.config)) ≡ true) task_cfg_map
unfolding task_cfg_map
safe_entries = (
  refl,
  (
    refl,
    (
      refl,
      (
        refl,
        (refl, (refl, (refl, (refl, (refl, (refl, (refl, (refl, (refl, (refl, (refl, tt))))))))))),
      ),
    ),
  ),
)

module _ (host : Host) where
  task_handler-same :
      (merge merge' : Merge) (c : Config)
      → is_include c ≡ false
      → task_handler host merge c ≡ task_handler host merge' c
  unfolding task_handler
  task_handler-same merge merge' include h = absurd (cc h)
  task_handler-same merge merge' _ h = refl

  -- What the loop does with an entry that was found or not
  abbrev on_entry :
      Merge
      → Mem
      → ℕ
      → Str
      → Options
      → Option ConfigMapping
      → (Options → Draft → M (Option Draft))
      → Options
      → Draft
      → M (Option Draft)
  on_entry merge mem i val imports o rest seen d = on_option o (rest seen d) λ m.
      branch (not m.include_safe) fail (
        branch (not m.array_like && seen m.config) fail (
          branch (imports m.config)
            (do
              changed ← task_handler host merge m.config (part mem i) val d
              on_option changed fail (rest (mark seen m.config)))
            (rest (mark seen m.config) d)))

  abbrev loaded : Merge → Mem → Options → List (Str × Str) → ℕ → Options → Draft → M (Option Draft)
  loaded merge mem imports src i seen = load_entries host merge mem i included imports seen src

  module _ (c : IsBsearch host.bsearch) (merge merge' : Merge) (mem : Mem) (imports : Options) where
    found_same :
        (key : Str) (m : ConfigMapping)
        → find_config_mapping host.bsearch task_cfg_map key ≡ some m
        → m.include_safe ≡ true
        → task_handler host merge m.config ≡ task_handler host merge' m.config
    found_same key m e safe = task_handler-same merge merge' m.config (
        ground (
          arith,
          safe,
          All-IsIn (λ n. (not n.include_safe || not (is_include n.config)) ≡ true) task_cfg_map m
              safe_entries (find_config_mapping-IsIn host.bsearch key m c e),
        ))

    same_found :
        (i : ℕ) (val : Str) (m : ConfigMapping) (safe : Bool)
        → m.include_safe ≡ safe
        → (safe ≡ true → task_handler host merge m.config ≡ task_handler host merge' m.config)
        → (rest rest' : Options → Draft → M (Option Draft)) → rest ≡ rest'
        → on_entry merge mem i val imports (some m) rest
          ≡ on_entry merge' mem i val imports (some m) rest'
    same_found i val m false e h rest rest' r = rw e refl
    same_found i val m true e h rest rest' r = λ j seen d. branch (not m.include_safe) fail (
        branch (not m.array_like && seen m.config) fail (
          branch (imports m.config)
            (do
              changed ← h refl j (part mem i) val d
              on_option changed fail (r j (mark seen m.config)))
            (r j (mark seen m.config) d)))

    same_entry :
        (i : ℕ) (key val : Str) (o : Option ConfigMapping)
        → find_config_mapping host.bsearch task_cfg_map key ≡ o
        → (rest rest' : Options → Draft → M (Option Draft)) → rest ≡ rest'
        → on_entry merge mem i val imports o rest ≡ on_entry merge' mem i val imports o rest'
    same_entry i key val none e rest rest' r = r
    same_entry i key val (some m) e rest rest' r =
        same_found i val m m.include_safe refl (found_same key m e) rest rest' r

    load_entries-same :
        (src : List (Str × Str)) (i : ℕ)
        → loaded merge mem imports src i ≡ loaded merge' mem imports src i
    unfolding load_entries
    load_entries-same [] i = refl
    load_entries-same ((key, val) ∷ src) i =
        same_entry i key val (find_config_mapping host.bsearch task_cfg_map key) refl _ _
          (load_entries-same src (suc i))

  -- How files are merged, with so many files below
  abbrev merge_at : ℕ → Merge
  merge_at n = merge_file host (λ mem. set_from_conf_kv_list host n mem included)

  pub set_entries-same :
      (merge merge' : Merge) (mem : Mem) (list : Option Str) (src : List (Str × Str))
      → IsBsearch host.bsearch
      → set_entries host merge mem included list src ≡ set_entries host merge' mem included list src
  unfolding set_entries
  set_entries-same merge merge' mem list src c = λ j d.
      on_option (import_arr host included list) fail
        λ imports. given src (load_entries-same c merge merge' mem imports src 0 j (λ o. false) d)

  merge_same : (n : ℕ) → IsBsearch host.bsearch → merge_at n ≡ merge_at 0
  unfolding set_from_conf_kv_list
  merge_same zero c = refl
  merge_same (suc n) c = λ j.
      merge_file host
        (λ mem list src. set_entries-same (merge_at n) (λ m s l d w. blocked) mem list src c j)

-- For a `bsearch` as the C standard says: an included file is read alike whatever an INCLUDE in it would
-- do, so files are included one deep, and a task is read alike for every greater depth.
pub set_from_conf_kv_list-depth :
    (host : Host) (n : ℕ) (merge : Merge) (mem : Mem) (type : TaskType) (list : Option Str)
    (src : List (Str × Str))
    → IsBsearch host.bsearch
    → (set_entries host merge mem included list src
        ≡ set_from_conf_kv_list host 0 mem included list src)
      × (set_from_conf_kv_list host (suc n) mem type list src
          ≡ set_from_conf_kv_list host 1 mem type list src)
unfolding set_from_conf_kv_list
set_from_conf_kv_list-depth host n merge mem type list src c = (
  set_entries-same host merge (λ m s l d w. blocked) mem list src c,
  ap (λ m. set_entries host m mem type list src) (merge_same host n c),
)
