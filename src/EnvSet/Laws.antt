-- ===== src/EnvSet/Laws.antt =====
-- `crinitEnvSetSet` and `crinitEnvSetGet` implement a map from names to values.
use crinit.Base.{
  ℕ, zero, suc, ◌+◌, ◌-◌, ◌<◌, ◌≡◌, refl, sym, subst, ◌∙◌, ◌||◌, not, ◌↔◌, Option-cases, inl, inr,
  Bool, true, false, List, [], ◌∷◌, ◌++◌, Option, none, some, ◌==◌, if◌then◌else◌, leb, length,
  get_elem?, set, replicate, length-append, length-set, arith, ap, Bool-cases, ok, err,
}
use crinit.Base.Str.{Str, str_eq}
use crinit.EnvSet.{
  EnvSet, Outcome, done, undefined, Alloc, is_valid, has_equals, entry, search_slots, search, get,
  grow, write, add, replace, put,
}
use crinit.EnvSet.Slots.{
  IsPadded, AllNull-replicate, IsPadded-append, lookup, search_slots-lt, search_slots-append,
  search_slots_held, get_elem?-ne-none, lookup-append, lookup-eq-get_elem?, lookup-set,
  set-IsPadded,
}

-- The array has the recorded size, and a NULL behind its variables.
pub record IsWellFormed (es : EnvSet) : Type 0 where
  pub slots : List (Option Str)
  pub held : es.envp ≡ some slots
  pub sized : length slots ≡ es.alloc_sz
  pub padded : IsPadded slots

pub length-replicate_null : (n : ℕ) → length (replicate {A = Option Str} n none) ≡ n
length-replicate_null zero = refl
length-replicate_null (suc n) = ap suc (length-replicate_null n)

pub padded_positive : (slots : List (Option Str)) → IsPadded slots → 0 < length slots
padded_positive [] h = absurd h
padded_positive (x ∷ slots) h = omega arith

pub get_of_slots :
    (es : EnvSet) (slots : List (Option Str)) (name : Str)
    → es.envp ≡ some slots
    → 0 < es.alloc_sz
    → has_equals name ≡ false
    → get es name ≡ lookup name slots
unfolding get search
get_of_slots es slots name held pos hn = ground (arith, lookup-eq-get_elem? name slots)

-- What `crinitEnvSetSet` promises on each of its outcomes.
abbrev pub Put : EnvSet → Str → Str → Outcome → Type 0
Put es name val (done ok es') =
    IsWellFormed es'
    × ((j : Str)
        → has_equals j ≡ false
        → get es' j ≡ (if str_eq name j then some val else get es j))
Put es name val (done err es') =
    IsWellFormed es' × ((j : Str) → has_equals j ≡ false → get es' j ≡ get es j)
Put es name val undefined = ⊥

module _ (es : EnvSet) (slots : List (Option Str)) (name val : Str) (held : es.envp ≡ some slots)
    (sized : length slots ≡ es.alloc_sz) (padded : IsPadded slots)
    (plain : has_equals name ≡ false) where
  unchanged : Put es name val (done err es)
  unchanged = (record { slots = slots; held = held; sized = sized; padded = padded }, λ j hj. refl)

  -- The entry is written into a slot that is not the last one.
  written :
      suc (search_slots name slots) < length slots
      → Put es name val (write es slots (search_slots name slots) name val)
  written lt = (
    record {
      slots = set slots (search_slots name slots) (some (entry name val));
      held = refl;
      sized = length-set slots _ _ ∙ sized;
      padded = set-IsPadded name (entry name val) slots padded lt;
    },
    λ j hj.
        get_of_slots _ _ j refl (omega (arith, padded_positive slots padded)) hj
        ∙ (lookup-set j name val slots hj plain padded
            ∙ ap (λ old. if str_eq name j then some val else old)
                (sym
                  (get_of_slots es slots j held (omega (arith, padded_positive slots padded)) hj))),
  )

  -- Growing the array changes no variable.
  grown : EnvSet
  grown = record {
    envp = some (slots ++ replicate es.alloc_inc none);
    alloc_sz = es.alloc_sz + es.alloc_inc;
    alloc_inc = es.alloc_inc;
  }

  get-grown : (j : Str) → has_equals j ≡ false → get grown j ≡ get es j
  unfolding grown
  get-grown j hj =
      get_of_slots _ _ j refl (omega (arith, padded_positive slots padded)) hj
      ∙ (lookup-append j slots _ padded
          ∙ sym (get_of_slots es slots j held (omega (arith, padded_positive slots padded)) hj))

-- A promise about the grown set is one about the set.
Put-grown :
    (es es' : EnvSet) (name val : Str) (o : Outcome)
    → ((j : Str) → has_equals j ≡ false → get es' j ≡ get es j)
    → Put es' name val o
    → Put es name val o
Put-grown es es' name val (done ok es2) same p =
    (p.0, λ j hj. p.1 j hj ∙ ap (λ old. if str_eq name j then some val else old) (same j hj))
Put-grown es es' name val (done err es2) same p = (p.0, λ j hj. p.1 j hj ∙ same j hj)
Put-grown es es' name val undefined same p = p

module _ (alloc : Alloc) (es : EnvSet) (slots : List (Option Str)) (name val : Str)
    (held : es.envp ≡ some slots) (sized : length slots ≡ es.alloc_sz) (padded : IsPadded slots)
    (plain : has_equals name ≡ false) where
  abbrev slots' : List (Option Str)
  slots' = slots ++ replicate es.alloc_inc none

  abbrev bigger : EnvSet
  bigger = record {
    envp = some slots';
    alloc_sz = es.alloc_sz + es.alloc_inc;
    alloc_inc = es.alloc_inc;
  }

  length-slots' : length slots' ≡ es.alloc_sz + es.alloc_inc
  length-slots' = omega (
    arith,
    length-append slots (replicate {A = Option Str} es.alloc_inc none),
    sized,
    length-replicate_null es.alloc_inc,
  )

  slots'-IsPadded : IsPadded slots'
  slots'-IsPadded = IsPadded-append slots _ padded (AllNull-replicate es.alloc_inc)

  bigger_same : (j : Str) → has_equals j ≡ false → get bigger j ≡ get es j
  unfolding grown
  bigger_same = get-grown es slots name val held sized padded plain

  written_bigger :
      0 < es.alloc_inc → Put es name val (write bigger slots' (search_slots name slots) name val)
  written_bigger pos =
      Put-grown es bigger name val (write bigger slots' (search_slots name slots) name val)
        bigger_same
        (subst (λ i. Put bigger name val (write bigger slots' i name val))
          (search_slots-append name slots _ padded)
          (written bigger slots' name val refl length-slots' slots'-IsPadded plain (
            rw (search_slots-append name slots _ padded)
              (omega (arith, length-slots', sized, search_slots-lt name slots padded)))))

  kept_bigger : Put es name val (done err bigger)
  kept_bigger =
      Put-grown es bigger name val (done err bigger) bigger_same
        (unchanged bigger slots' name val refl length-slots' slots'-IsPadded plain)

  Put-add : Put es name val (add alloc es slots (search_slots name slots) name val)
  unfolding add grow
  Put-add = elim (Bool-cases (leb (es.alloc_sz - 1) (search_slots name slots))) [
    | inl full ↦ elim (Bool-cases (es.alloc_inc == 0 || not (alloc 0))) [
      | inl stop ↦ rw (full, stop) (unchanged es slots name val held sized padded plain)
      | inr go ↦ elim (Bool-cases (alloc 1)) [
        | inl a ↦ rw (full, go, a) (written_bigger (ground arith))
        | inr a ↦ rw (full, go, a) kept_bigger
      ]
    ]
    | inr room ↦ elim (Bool-cases (alloc 1)) [
      | inl a ↦ rw (room, a) (written es slots name val held sized padded plain (ground arith))
      | inr a ↦ rw (room, a) (unchanged es slots name val held sized padded plain)
    ]
  ]

  Put-replace :
      (old : Str)
      → get_elem? slots (search_slots name slots) ≡ some (some old)
      → Put es name val (replace alloc es slots (search_slots name slots) old name val)
  unfolding replace
  Put-replace old e =
      let w =
        written es slots name val held sized padded plain
          (search_slots_held name old slots padded e) in
      elim (Bool-cases (length (entry name val) == length old)) [
        | inl same ↦ rw same w
        | inr other ↦ elim (Bool-cases (alloc 1)) [
          | inl a ↦ rw (other, a) w
          | inr a ↦ rw (other, a) (unchanged es slots name val held sized padded plain)
        ]
      ]

  search_of_slots : search es name ≡ some (search_slots name slots)
  unfolding search is_valid
  search_of_slots = ground (arith, padded_positive slots padded)

  put_held :
      (slot : Option Str)
      → get_elem? slots (search_slots name slots) ≡ some slot
      → Put es name val (put alloc es name val)
  unfolding put
  put_held none e =
      let pos : 0 < es.alloc_sz = omega (arith, padded_positive slots padded) in
      subst (Put es name val) (sym (ground (arith, search_of_slots))) Put-add
  put_held (some old) e =
      let pos : 0 < es.alloc_sz = omega (arith, padded_positive slots padded) in
      subst (Put es name val) (sym (ground (arith, search_of_slots))) (Put-replace old e)

-- On a well-formed set and a name without '=', and whichever allocations fail, `crinitEnvSetSet`
-- stays inside the array and leaves a well-formed set. If it reports success, the name is bound to
-- the value and every other name is as before; if it reports an error, every name is as before.
pub put-Put :
    (alloc : Alloc) (es : EnvSet) (name val : Str)
    → IsWellFormed es
    → has_equals name ≡ false
    → Put es name val (put alloc es name val)
put-Put alloc es name val wf plain =
    elim (Option-cases (get_elem? wf.slots (search_slots name wf.slots))) [
      | inl e ↦ absurd (get_elem?-ne-none wf.slots _ (search_slots-lt name wf.slots wf.padded) e)
      | inr (slot, e) ↦ put_held alloc es wf.slots name val wf.held wf.sized wf.padded plain slot e
    ]

abbrev is_ok : Outcome → Bool
is_ok (done ok es) = true
is_ok (done err es) = false
is_ok undefined = false

is_ok_inv : (o : Outcome) → is_ok o ≡ true → (es : EnvSet) × (o ≡ done ok es)
is_ok_inv (done ok es) h = (es, refl)
is_ok_inv (done err es) h = cc
is_ok_inv undefined h = cc

-- With memory and room to grow it succeeds.
put_succeeds :
    (alloc : Alloc) (es : EnvSet) (name val : Str)
    → IsWellFormed es
    → has_equals name ≡ false
    → 0 < es.alloc_inc
    → ((i : ℕ) → alloc i ≡ true)
    → is_ok (put alloc es name val) ≡ true
unfolding put search add replace grow
put_succeeds alloc es name val wf plain room mem = ground (
  arith,
  mem 0,
  mem 1,
  wf.held,
  wf.sized,
  padded_positive wf.slots wf.padded,
  get_elem?-ne-none wf.slots (search_slots name wf.slots) (search_slots-lt name wf.slots wf.padded),
)

-- On a well-formed set, a name without '=', with a growth increment and enough memory,
-- `crinitEnvSetSet` succeeds: afterwards the set is well formed, `crinitEnvSetGet` returns the value
-- for the name, and what it returned before for every other name without '='.
pub get-put :
    (alloc : Alloc) (es : EnvSet) (name val : Str)
    → IsWellFormed es
    → has_equals name ≡ false
    → 0 < es.alloc_inc
    → ((i : ℕ) → alloc i ≡ true)
    → (es' : EnvSet) × (put alloc es name val ≡ done ok es')
      × IsWellFormed es'
      × ((j : Str)
          → has_equals j ≡ false
          → get es' j ≡ (if str_eq name j then some val else get es j))
get-put alloc es name val wf plain room mem =
    let (es', e) = is_ok_inv _ (put_succeeds alloc es name val wf plain room mem) in
    let p = subst (Put es name val) e (put-Put alloc es name val wf plain) in (es', e, p.0, p.1)

put-equals :
    (alloc : Alloc) (es : EnvSet) (name val : Str)
    → IsWellFormed es
    → has_equals name ≡ true
    → put alloc es name val ≡ undefined
unfolding put search
put-equals alloc es name val wf h =
    ground (arith, wf.held, wf.sized, padded_positive wf.slots wf.padded)

-- `crinitEnvSetSet` on a well-formed set leaves defined behaviour (it writes at index -1) exactly if
-- the name contains '='.
pub put_undefined_iff :
    (alloc : Alloc) (es : EnvSet) (name val : Str)
    → IsWellFormed es
    → (put alloc es name val ≡ undefined) ↔ (has_equals name ≡ true)
put_undefined_iff alloc es name val wf = (
  λ e. elim (Bool-cases (has_equals name)) [
    | inl h ↦ h
    | inr h ↦ absurd (subst (Put es name val) e (put-Put alloc es name val wf h))
  ],
  put-equals alloc es name val wf,
)
