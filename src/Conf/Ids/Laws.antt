-- ===== src/Conf/Ids/Laws.antt =====
-- Which users and groups the handlers give a task.
use crinit.Base.{
  ℕ, zero, suc, ◌%◌, ◌^◌, ◌≡◌, ◌≢◌, inl, inr, refl, sym, ap, subst, ◌∙◌, true, false, List, [], ◌∷◌,
  Option, none, some, length, get_elem?, Bool-cases, ==_iff, arith,
}
use crinit.Base.Str.{Str}
use crinit.Base.Int.{pos}
use crinit.Task.{Task}
use crinit.Conf.StrArr.{Mem, part, first_of}
use crinit.Conf.Value.{StrTo, conv_to_integer, conv_to_integer_ui}
use crinit.Conf.Handler.{Host}
use crinit.Conf.Ids.{
  GroupArg, known, unknown, refused, username_to_uid, groupname_to_gid, uid_to_username, numeric_id,
  user_with, numeric_user, named_user, user_task, named_group, group_arg, sup_gid, sup_gids,
  first_group, needs_name, with_sup, group_task, duplicated, and_then,
}

-- A chain of options that has a result
pub and_then-some :
    {A B : Type 0} (o : Option A) (f : A → Option B) (b : B)
    → and_then o f ≡ some b
    → (a : A) × (o ≡ some a) × (f a ≡ some b)
and_then-some none f b e = absurd (ground (arith, e))
and_then-some (some a) f b e = (a, refl, e)

of_some : {A : Type 0} {a b : A} → some a ≡ some b → a ≡ b
of_some e = cc e

whole_number :
    {A : Type 0} (strto : Str → StrTo A) (val : Str) (v : A)
    → val ≢ []
    → strto val ≡ record { value = v; consumed = length val; errno = false }
    → conv_to_integer strto val ≡ some v
unfolding conv_to_integer
whole_number strto [] v ne e = absurd (ne refl)
whole_number strto (c ∷ s) v ne e =
    rw e (rw ((==_iff (length (c ∷ s)) (length (c ∷ s))).1 refl) (ground arith))

-- What a step keeps of a task
abbrev pub Keeps : (Task → Type 0) → Task → Option Task → Type 0
Keeps P t none = Unit
Keeps P t (some u) = P t → P u

-- A property that does not look at the users and groups of a task
abbrev pub Ignores : (Task → Type 0) → Type 0
Ignores P =
    ((t : Task) (uid : ℕ) (name : Str) → P t → P (user_with t uid name))
    × ((t : Task) (gid : ℕ) (name : Str)
        → P t
        → P (record t { group = gid; groupname = some name }))
    × ((t : Task) (gids : List ℕ) → P t → P (record t { sup_groups = gids }))

and_then-Keeps :
    {A : Type 0} (P : Task → Type 0) (t : Task) (o : Option A) (f : A → Option Task)
    → ((a : A) → Keeps P t (f a))
    → Keeps P t (and_then o f)
and_then-Keeps P t none f h = tt
and_then-Keeps P t (some a) f h = h a

chain-Keeps :
    (P : Task → Type 0) (t : Task) (o : Option Task) (f : Task → Option Task)
    → Keeps P t o
    → ((u : Task) → Keeps P u (f u))
    → Keeps P t (and_then o f)
chain-Keeps P t none f h k = tt
chain-Keeps P t (some u) f h k = trans (f u) (k u)
  where
    trans : (o : Option Task) → Keeps P u o → Keeps P t o
    trans none g = tt
    trans (some v) g = λ p. g (h p)

module _ (host : Host) where
  -- The array of supplementary groups has an element for each name.
  sup_gids-at :
      (mem : Mem) (i : ℕ) (args : List Str) (gids : List ℕ) (j : ℕ) (name : Str)
      → sup_gids host mem i args ≡ some gids
      → get_elem? args j ≡ some name
      → (k : ℕ) × (gid : ℕ) × (get_elem? gids j ≡ some gid)
        × (sup_gid (group_arg host (part mem k) false name) ≡ some gid)
  unfolding sup_gids
  sup_gids-at mem i [] gids j name e g = absurd (ground (arith, g))
  sup_gids-at mem i (s ∷ args) gids zero name e g =
      let (gid, p, q) = and_then-some (sup_gid (group_arg host (part mem i) false s)) _ gids e in
      let (rest, u, v) = and_then-some (sup_gids host mem (suc i) args) _ gids q in
      (
        i,
        gid,
        subst (λ l. get_elem? l 0 ≡ some gid) (of_some v) refl,
        subst (λ n. sup_gid (group_arg host (part mem i) false n) ≡ some gid) (of_some g) p,
      )
  sup_gids-at mem i (s ∷ args) gids (suc j) name e g =
      let (gid, p, q) = and_then-some (sup_gid (group_arg host (part mem i) false s)) _ gids e in
      let (rest, u, v) = and_then-some (sup_gids host mem (suc i) args) _ gids q in
      let (k, found, at, of) = sup_gids-at mem (suc i) args rest j name u g in
      (k, found, subst (λ l. get_elem? l (suc j) ≡ some found) (of_some v) at, of)

  -- A name that no group has leaves its element at the 0 of the new array.
  unknown_arg :
      (mem : Mem) (name : Str)
      → host.is_alpha (first_of name) ≡ true
      → host.gid_of name ≡ none
      → group_arg host mem false name ≡ unknown
  unfolding group_arg groupname_to_gid named_group
  unknown_arg mem name a n =
      rw a
        (elim (Bool-cases (part mem 0 (0 ∷ []))) [ inl e ↦ rw e (rw n refl) | inr e ↦ rw e refl ])

  needs_name-same : (t u : Task) (name : Option Str) → needs_name t name ≡ some u → t ≡ u
  unfolding needs_name
  needs_name-same t u none e = absurd (ground (arith, e))
  needs_name-same t u (some n) e = of_some e

  with_sup-groups :
      (mem : Mem) (s : Str) (args : List Str) (t u : Task)
      → with_sup host mem (s ∷ args) t ≡ some u
      → sup_gids host (part mem 3) 0 (s ∷ args) ≡ some u.sup_groups
  unfolding with_sup
  with_sup-groups mem s args t u = elim (Bool-cases (mem (1 ∷ []))) [
    | inr f ↦ rw f (λ e. absurd (ground (arith, e)))
    | inl f ↦ rw f (λ e.
        let (gids, p, q) = and_then-some (sup_gids host (part mem 3) 0 (s ∷ args)) _ u e in
        p ∙ ap (λ (v : Task). some v.sup_groups) (of_some q))
  ]

  -- When a GROUP is accepted, each supplementary group whose name starts with a letter and that does not
  -- exist is 0, the group of root.
  pub group_task-unknown :
      (mem : Mem) (first : Str) (args : List Str) (t u : Task) (j : ℕ) (name : Str)
      → group_task host mem (first ∷ args) t ≡ some u
      → get_elem? args j ≡ some name
      → host.is_alpha (first_of name) ≡ true
      → host.gid_of name ≡ none
      → get_elem? u.sup_groups j ≡ some 0
  unfolding group_task
  group_task-unknown mem first [] t u j name e g a n = absurd (ground (arith, g))
  group_task-unknown mem first (s ∷ args) t u j name e g a n =
      let (v, p, q) =
        and_then-some (first_group (group_arg host (part mem 2) true first) t) _ u e in
      let (x, y, z) = and_then-some (with_sup host mem (s ∷ args) v) _ u q in
      let (k, gid, at, of) =
        sup_gids-at (part mem 3) 0 (s ∷ args) x.sup_groups j name (with_sup-groups mem s args v x y)
          g in
      subst (λ (r : Task). get_elem? r.sup_groups j ≡ some 0) (needs_name-same x u x.groupname z)
        (at ∙ ap some (of_some (sym of ∙ ap sup_gid (unknown_arg (part (part mem 3) k) name a n))))

  module _ (P : Task → Type 0) (ignores : Ignores P) where
    numeric_user-Keeps :
        (mem : Mem) (val : Str) (t : Task) → Keeps P t (numeric_user host mem val t)
    unfolding numeric_user
    numeric_user-Keeps mem val t =
        and_then-Keeps P t (numeric_id host val) _
          λ uid. and_then-Keeps P t (uid_to_username host mem uid) _ λ name. ignores.0 t uid name

    named_user-Keeps :
        (mem : Mem) (val : Str) (t : Task) (o : Option ℕ) → Keeps P t (named_user host mem val t o)
    unfolding named_user
    named_user-Keeps mem val t none = numeric_user-Keeps (part mem 2) val t
    named_user-Keeps mem val t (some uid) =
        and_then-Keeps P t (duplicated (mem (1 ∷ [])) val) _ λ name. ignores.0 t uid name

    pub user_task-Keeps : (mem : Mem) (val : Str) (t : Task) → Keeps P t (user_task host mem val t)
    unfolding user_task
    user_task-Keeps mem val t = elim (Bool-cases (host.is_alpha (first_of val))) [
      | inl e ↦ rw e (named_user-Keeps mem val t (username_to_uid host (part mem 0) val))
      | inr e ↦ rw e (numeric_user-Keeps (part mem 2) val t)
    ]

    first_group-Keeps : (a : GroupArg) (t : Task) → Keeps P t (first_group a t)
    unfolding first_group
    first_group-Keeps (known gid name) t = ignores.1 t gid name
    first_group-Keeps unknown t = λ p. p
    first_group-Keeps refused t = tt

    needs_name-Keeps : (t : Task) (name : Option Str) → Keeps P t (needs_name t name)
    unfolding needs_name
    needs_name-Keeps t none = tt
    needs_name-Keeps t (some name) = λ p. p

    with_sup-Keeps : (mem : Mem) (args : List Str) (t : Task) → Keeps P t (with_sup host mem args t)
    unfolding with_sup
    with_sup-Keeps mem [] t = λ p. p
    with_sup-Keeps mem (s ∷ args) t = elim (Bool-cases (mem (1 ∷ []))) [
      | inr f ↦ rw f tt
      | inl f ↦ rw f (
          and_then-Keeps P t (sup_gids host (part mem 3) 0 (s ∷ args)) _ (λ gids. ignores.2 t gids))
    ]

    pub group_task-Keeps :
        (mem : Mem) (args : List Str) (t : Task) → Keeps P t (group_task host mem args t)
    unfolding group_task
    group_task-Keeps mem [] t = needs_name-Keeps t t.groupname
    group_task-Keeps mem (s ∷ args) t =
        chain-Keeps P t (first_group (group_arg host (part mem 2) true s) t) _
          (first_group-Keeps (group_arg host (part mem 2) true s) t)
          (λ u.
            chain-Keeps P u (with_sup host mem args u) _ (with_sup-Keeps mem args u)
              (λ v. needs_name-Keeps v v.groupname))

  -- While memory is there, USER with a number that `strtol` and `strtoul` read to its end gives the task
  -- the user of that number modulo 2 ^ 32: 4294967296 is root.
  pub user_task-number :
      (mem : Mem) (val name : Str) (t : Task) (v : ℕ)
      → mem (2 ∷ 0 ∷ []) ≡ true
      → mem (2 ∷ 1 ∷ []) ≡ true
      → host.is_alpha (first_of val) ≡ false
      → val ≢ []
      → host.strtol val ≡ record { value = pos v; consumed = length val; errno = false }
      → host.strtoul val ≡ record { value = v; consumed = length val; errno = false }
      → host.user_name (v % 2 ^ 32) ≡ some name
      → user_task host mem val t ≡ some (user_with t (v % 2 ^ 32) name)
  unfolding user_task numeric_user numeric_id uid_to_username conv_to_integer_ui
  user_task-number mem val name t v m0 m1 a some_text l u n =
      rw
        (
          a,
          whole_number host.strtol val (pos v) some_text l,
          whole_number host.strtoul val v some_text u,
          m0,
          n,
          m1,
        )
        refl
