-- ===== src/Conf/Map/Laws.antt =====
-- The search in the tables finds the one entry with the key.
use Prim.Native.Nat.{Ordering, compare, lt, eq, gt}
use crinit.Base.{
  ℕ, ◌≡◌, ◌≢◌, ◌⊎◌, inl, inr, refl, sym, ap, subst, ◌∙◌, Bool, true, false, ◌&&◌, List, [], ◌∷◌,
  Option, none, some, if◌then◌else◌, All, Option-cases, Bool-cases, arith,
}
use crinit.Base.Str.{Str, str_eq, str_eq_iff}
use crinit.Conf.Map.{
  ConfigMapping, task_cfg_map, series_cfg_map, kcmdline_cfg_map, strcmp, Bsearch,
  find_config_mapping,
}

-- The array as `bsearch` wants it: first the elements below the key, then those equal to it, then those
-- above it.
abbrev pub IsPartitioned : (ConfigMapping → Ordering) → List ConfigMapping → Type 0
IsPartitioned cmp [] = Unit
IsPartitioned cmp (m ∷ l) =
    (cmp m ≡ eq → All (λ n. cmp n ≢ gt) l)
    × (cmp m ≡ lt → All (λ n. cmp n ≡ lt) l)
    × IsPartitioned cmp l

abbrev pub IsIn : ConfigMapping → List ConfigMapping → Type 0
IsIn m [] = ⊥
IsIn m (n ∷ l) = (m ≡ n) ⊎ IsIn m l

-- What the C standard says of `bsearch`
pub record IsBsearch (bsearch : Bsearch) : Type 0 where
  pub found :
      (cmp : ConfigMapping → Ordering) (l : List ConfigMapping) (m : ConfigMapping)
      → IsPartitioned cmp l
      → bsearch cmp l ≡ some m
      → IsIn m l × (cmp m ≡ eq)
  pub missed :
      (cmp : ConfigMapping → Ordering) (l : List ConfigMapping)
      → IsPartitioned cmp l
      → bsearch cmp l ≡ none
      → All (λ m. cmp m ≢ eq) l

-- The entry with a key, by looking at one after the other
pub lookup_key : Str → List ConfigMapping → Option ConfigMapping
lookup_key k [] = none
lookup_key k (m ∷ l) = if str_eq k m.config_key then some m else lookup_key k l

compare_refl : (x : ℕ) → compare x x ≡ eq
compare_refl x = ground arith

strcmp-eq : (a b : Str) → strcmp a b ≡ eq → a ≡ b
unfolding strcmp
strcmp-eq [] [] h = refl
strcmp-eq [] (y ∷ b) h = absurd (ground (arith, h))
strcmp-eq (x ∷ a) [] h = absurd (ground (arith, h))
strcmp-eq (x ∷ a) (y ∷ b) h = ground (arith, strcmp-eq a b)

strcmp_refl : (a : Str) → strcmp a a ≡ eq
unfolding strcmp
strcmp_refl [] = refl
strcmp_refl (x ∷ a) = rw (compare_refl x, strcmp) (strcmp_refl a)

strcmp-lt_trans : (a b c : Str) → strcmp a b ≡ lt → strcmp b c ≡ lt → strcmp a c ≡ lt
unfolding strcmp
strcmp-lt_trans [] [] c h g = absurd (ground (arith, h))
strcmp-lt_trans [] (y ∷ b) [] h g = absurd (ground (arith, g))
strcmp-lt_trans [] (y ∷ b) (z ∷ c) h g = refl
strcmp-lt_trans (x ∷ a) [] c h g = absurd (ground (arith, h))
strcmp-lt_trans (x ∷ a) (y ∷ b) [] h g = absurd (ground (arith, g))
strcmp-lt_trans (x ∷ a) (y ∷ b) (z ∷ c) h g = ground (arith, strcmp-lt_trans a b c)

-- The order that inc/confmap.h asks for
abbrev is_lt : Ordering → Bool
is_lt lt = true
is_lt _ = false

all_above : Str → List ConfigMapping → Bool
all_above k [] = true
all_above k (m ∷ l) = is_lt (strcmp k m.config_key) && all_above k l

pub ascending : List ConfigMapping → Bool
unfolding all_above
ascending [] = true
ascending (m ∷ l) = all_above m.config_key l && ascending l

is_lt_sound : (o : Ordering) → is_lt o ≡ true → o ≡ lt
is_lt_sound lt h = refl
is_lt_sound eq h = absurd (cc h)
is_lt_sound gt h = absurd (cc h)

all_above_sound :
    (k : Str) (l : List ConfigMapping)
    → all_above k l ≡ true
    → All (λ n. strcmp k n.config_key ≡ lt) l
unfolding all_above
all_above_sound k [] h = tt
all_above_sound k (m ∷ l) h = (
  is_lt_sound (strcmp k m.config_key) (ground (arith, h)),
  all_above_sound k l (ground (arith, h)),
)

All-lt_trans :
    (j k : Str) (l : List ConfigMapping)
    → strcmp j k ≡ lt
    → All (λ n. strcmp k n.config_key ≡ lt) l
    → All (λ n. strcmp j n.config_key ≡ lt) l
All-lt_trans j k [] h a = tt
All-lt_trans j k (m ∷ l) h a = (strcmp-lt_trans j k m.config_key h a.0, All-lt_trans j k l h a.1)

All-ne-gt :
    (k : Str) (l : List ConfigMapping)
    → All (λ n. strcmp k n.config_key ≡ lt) l
    → All (λ n. strcmp k n.config_key ≢ gt) l
All-ne-gt k [] a = tt
All-ne-gt k (m ∷ l) a = (λ e. cc (a.0, e), All-ne-gt k l a.1)

ascending-IsPartitioned :
    (k : Str) (l : List ConfigMapping)
    → ascending l ≡ true
    → IsPartitioned (λ m. strcmp k m.config_key) l
unfolding ascending
ascending-IsPartitioned k [] h = tt
ascending-IsPartitioned k (m ∷ l) h =
    let above : All (λ n. strcmp m.config_key n.config_key ≡ lt) l =
      all_above_sound m.config_key l (ground (arith, h)) in
    (
      λ e. All-ne-gt k l (
          subst (λ j. All (λ n. strcmp j n.config_key ≡ lt) l) (sym (strcmp-eq k m.config_key e))
            above),
      λ e. All-lt_trans k m.config_key l e above,
      ascending-IsPartitioned k l (ground (arith, h)),
    )

task_ascending : ascending task_cfg_map ≡ true
unfolding ascending task_cfg_map strcmp
task_ascending = refl

series_ascending : ascending series_cfg_map ≡ true
unfolding ascending series_cfg_map strcmp
series_ascending = refl

kcmdline_ascending : ascending kcmdline_cfg_map ≡ true
unfolding ascending kcmdline_cfg_map strcmp
kcmdline_ascending = refl

pub All-IsIn :
    (P : ConfigMapping → Type 0) (l : List ConfigMapping) (m : ConfigMapping)
    → All P l
    → IsIn m l
    → P m
All-IsIn P [] m a i = absurd i
All-IsIn P (n ∷ l) m a (inl same) = subst P (sym same) a.0
All-IsIn P (n ∷ l) m a (inr i) = All-IsIn P l m a.1 i

-- No other entry of an ascending table has the key of an entry.
lookup_key-IsIn :
    (k : Str) (l : List ConfigMapping) (m : ConfigMapping)
    → ascending l ≡ true
    → IsIn m l
    → strcmp k m.config_key ≡ eq
    → lookup_key k l ≡ some m
unfolding ascending lookup_key
lookup_key-IsIn k [] m h i e = absurd i
lookup_key-IsIn k (n ∷ l) m h (inl same) e =
    rw
      ((str_eq_iff k n.config_key).1
        (strcmp-eq k n.config_key (subst (λ x. strcmp k x.config_key ≡ eq) same e)))
      (ap some (sym same))
lookup_key-IsIn k (n ∷ l) m h (inr i) e = elim (Bool-cases (str_eq k n.config_key)) [
  | inl held ↦ absurd (
      cc (
        strcmp-eq k m.config_key e,
        (str_eq_iff k n.config_key).0 held,
        All-IsIn (λ x. strcmp n.config_key x.config_key ≡ lt) l m
            (all_above_sound n.config_key l (ground (arith, h))) i,
        strcmp_refl k,
      ))
  | inr other ↦ rw other (lookup_key-IsIn k l m (ground (arith, h)) i e)
]

lookup_key-missed :
    (k : Str) (l : List ConfigMapping)
    → All (λ m. strcmp k m.config_key ≢ eq) l
    → lookup_key k l ≡ none
unfolding lookup_key
lookup_key-missed k [] a = refl
lookup_key-missed k (m ∷ l) a = elim (Bool-cases (str_eq k m.config_key)) [
  | inl held ↦ absurd (a.0 (cc ((str_eq_iff k m.config_key).0 held, strcmp_refl k)))
  | inr other ↦ rw other (lookup_key-missed k l a.1)
]

find-lookup_key :
    (bsearch : Bsearch) (l : List ConfigMapping) (k : Str)
    → IsBsearch bsearch
    → ascending l ≡ true
    → find_config_mapping bsearch l k ≡ lookup_key k l
unfolding find_config_mapping
find-lookup_key bsearch l k c h = elim (Option-cases (bsearch (λ m. strcmp k m.config_key) l)) [
  | inl e ↦
      e
      ∙ sym (
          lookup_key-missed k l
            (c.missed (λ m. strcmp k m.config_key) l (ascending-IsPartitioned k l h) e))
  | inr (m, e) ↦
      let f = c.found (λ m. strcmp k m.config_key) l m (ascending-IsPartitioned k l h) e in
      e ∙ sym (lookup_key-IsIn k l m h f.0 f.1)
]

-- For a `bsearch` that does what the C standard says, the search in each of the three tables gives the
-- entry with the key, or nothing if no entry has it: the tables have the order that `bsearch` needs.
pub find_config_mapping-lookup_key :
    (bsearch : Bsearch) (k : Str)
    → IsBsearch bsearch
    → (find_config_mapping bsearch task_cfg_map k ≡ lookup_key k task_cfg_map)
      × (find_config_mapping bsearch series_cfg_map k ≡ lookup_key k series_cfg_map)
      × (find_config_mapping bsearch kcmdline_cfg_map k ≡ lookup_key k kcmdline_cfg_map)
find_config_mapping-lookup_key bsearch k c = (
  find-lookup_key bsearch task_cfg_map k c task_ascending,
  find-lookup_key bsearch series_cfg_map k c series_ascending,
  find-lookup_key bsearch kcmdline_cfg_map k c kcmdline_ascending,
)

-- What is found in the table of the tasks stands in it.
pub find_config_mapping-IsIn :
    (bsearch : Bsearch) (k : Str) (m : ConfigMapping)
    → IsBsearch bsearch
    → find_config_mapping bsearch task_cfg_map k ≡ some m
    → IsIn m task_cfg_map
unfolding find_config_mapping
find_config_mapping-IsIn bsearch k m c e =
    (c.found (λ n. strcmp k n.config_key) task_cfg_map m
      (ascending-IsPartitioned k task_cfg_map task_ascending) e).0
