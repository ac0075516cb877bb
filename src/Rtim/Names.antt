-- ===== src/Rtim/Names.antt =====
-- The names of the operations and their opcodes determine each other.
use crinit.Base.{
  ◌≡◌, ◌↔◌, inl, inr, refl, sym, ap, ◌∙◌, true, ◌&&◌, ◌==◌, if◌then◌else◌, Option, none, some, List,
  [], ◌∷◌, length, arith, Bool-cases, All,
}
use crinit.Base.Str.{Str, str_eq, str_eq_iff}
use crinit.Rtim.{
  RtimOp, rtim_ops, c_addtask, r_addtask, c_addseries, r_addseries, c_enable, r_enable, c_disable,
  r_disable, c_stop, r_stop, c_kill, r_kill, c_restart, r_restart, c_notify, r_notify, c_status,
  r_status, c_tasklist, r_tasklist, c_shutdown, r_shutdown, c_getver, r_getver, delimited_strlen,
  strncmp_eq, find_op_str, rtim_op_get_by_op_str, find_op, op_str_get_by_rtim_op, op_str,
}
use crinit.Rtim.Fields.{field}

delimited_strlen-field : (s : Str) → delimited_strlen s ≡ length (field s)
unfolding delimited_strlen
delimited_strlen-field [] = refl
delimited_strlen-field (x ∷ s) = ground (arith, delimited_strlen-field s)

-- The two tests of the loop are the equality of the name with the first field.
strncmp_eq-field :
    (name s : Str)
    → length (field s) ≡ length name
    → strncmp_eq (length name) name s ≡ str_eq name (field s)
unfolding strncmp_eq str_eq
strncmp_eq-field [] [] h = refl
strncmp_eq-field [] (x ∷ s) h = ground (arith, h)
strncmp_eq-field (y ∷ name) [] h = absurd (omega (arith, h))
strncmp_eq-field (y ∷ name) (x ∷ s) h = ground (arith, h, strncmp_eq-field name s)

length-str_eq : (a b : Str) → str_eq a b ≡ true → length b ≡ length a
length-str_eq a b h = ap length (sym ((str_eq_iff a b).0 h))

both_tests :
    (name s : Str)
    → (delimited_strlen s == length name && strncmp_eq (delimited_strlen s) name s)
      ≡ str_eq name (field s)
both_tests name s = elim (Bool-cases (delimited_strlen s == length name)) [
  | inl e ↦
      let d : delimited_strlen s ≡ length name = ground (arith, e) in
      ground (
        arith,
        e,
        ap (λ n. strncmp_eq n name s) d,
        strncmp_eq-field name s (sym (delimited_strlen-field s) ∙ d),
      )
  | inr e ↦ elim (Bool-cases (str_eq name (field s))) [
    | inl q ↦ ground (arith, e, length-str_eq name (field s) q, delimited_strlen-field s)
    | inr q ↦ ground (arith, e, q)
  ]
]

-- The operation with its name
pub op_str_get_by_rtim_op-op_str : (op : RtimOp) → op_str_get_by_rtim_op op ≡ some (op_str op)
unfolding op_str_get_by_rtim_op find_op
op_str_get_by_rtim_op-op_str c_addtask = refl
op_str_get_by_rtim_op-op_str r_addtask = refl
op_str_get_by_rtim_op-op_str c_addseries = refl
op_str_get_by_rtim_op-op_str r_addseries = refl
op_str_get_by_rtim_op-op_str c_enable = refl
op_str_get_by_rtim_op-op_str r_enable = refl
op_str_get_by_rtim_op-op_str c_disable = refl
op_str_get_by_rtim_op-op_str r_disable = refl
op_str_get_by_rtim_op-op_str c_stop = refl
op_str_get_by_rtim_op-op_str r_stop = refl
op_str_get_by_rtim_op-op_str c_kill = refl
op_str_get_by_rtim_op-op_str r_kill = refl
op_str_get_by_rtim_op-op_str c_restart = refl
op_str_get_by_rtim_op-op_str r_restart = refl
op_str_get_by_rtim_op-op_str c_notify = refl
op_str_get_by_rtim_op-op_str r_notify = refl
op_str_get_by_rtim_op-op_str c_status = refl
op_str_get_by_rtim_op-op_str r_status = refl
op_str_get_by_rtim_op-op_str c_tasklist = refl
op_str_get_by_rtim_op-op_str r_tasklist = refl
op_str_get_by_rtim_op-op_str c_shutdown = refl
op_str_get_by_rtim_op-op_str r_shutdown = refl
op_str_get_by_rtim_op-op_str c_getver = refl
op_str_get_by_rtim_op-op_str r_getver = refl

-- The first entry with a name
find_name : List (RtimOp × Str) → Str → Option RtimOp
find_name [] f = none
find_name (e ∷ ops) f = if str_eq e.1 f then some e.0 else find_name ops f

find_op_str-find_name :
    (ops : List (RtimOp × Str)) (s : Str)
    → find_op_str ops (delimited_strlen s) s ≡ find_name ops (field s)
unfolding find_op_str find_name
find_op_str-find_name [] s = refl
find_op_str-find_name (e ∷ ops) s = ground (arith, both_tests e.1 s, find_op_str-find_name ops s)

find_name-op_str : (op : RtimOp) → find_name rtim_ops (op_str op) ≡ some op
unfolding find_name str_eq
find_name-op_str c_addtask = refl
find_name-op_str r_addtask = refl
find_name-op_str c_addseries = refl
find_name-op_str r_addseries = refl
find_name-op_str c_enable = refl
find_name-op_str r_enable = refl
find_name-op_str c_disable = refl
find_name-op_str r_disable = refl
find_name-op_str c_stop = refl
find_name-op_str r_stop = refl
find_name-op_str c_kill = refl
find_name-op_str r_kill = refl
find_name-op_str c_restart = refl
find_name-op_str r_restart = refl
find_name-op_str c_notify = refl
find_name-op_str r_notify = refl
find_name-op_str c_status = refl
find_name-op_str r_status = refl
find_name-op_str c_tasklist = refl
find_name-op_str r_tasklist = refl
find_name-op_str c_shutdown = refl
find_name-op_str r_shutdown = refl
find_name-op_str c_getver = refl
find_name-op_str r_getver = refl

op_str-find_name :
    (ops : List (RtimOp × Str)) (f : Str) (op : RtimOp)
    → All (λ e. e.1 ≡ op_str e.0) ops
    → find_name ops f ≡ some op
    → f ≡ op_str op
unfolding find_name
op_str-find_name [] f op a h = ground (arith, h)
op_str-find_name (e ∷ ops) f op a h = elim (Bool-cases (str_eq e.1 f)) [
  | inl q ↦ ground (arith, h, q, (str_eq_iff e.1 f).0 q, a.0)
  | inr q ↦ op_str-find_name ops f op a.1 (ground (arith, h, q))
]

pub rtim_op_get_by_op_str-op_str :
    (s : Str) (op : RtimOp) → (rtim_op_get_by_op_str s ≡ some op) ↔ (field s ≡ op_str op)
unfolding rtim_op_get_by_op_str
rtim_op_get_by_op_str-op_str s op = (
  λ h.
      op_str-find_name rtim_ops (field s) op
        (
          refl,
          (
            refl,
            (
              refl,
              (
                refl,
                (
                  refl,
                  (
                    refl,
                    (
                      refl,
                      (
                        refl,
                        (
                          refl,
                          (
                            refl,
                            (
                              refl,
                              (
                                refl,
                                (
                                  refl,
                                  (
                                    refl,
                                    (
                                      refl,
                                      (
                                        refl,
                                        (
                                          refl,
                                          (
                                            refl,
                                            (refl, (refl, (refl, (refl, (refl, (refl, tt)))))),
                                          ),
                                        ),
                                      ),
                                    ),
                                  ),
                                ),
                              ),
                            ),
                          ),
                        ),
                      ),
                    ),
                  ),
                ),
              ),
            ),
          ),
        )
        (sym (find_op_str-find_name rtim_ops s) ∙ h),
  λ h. find_op_str-find_name rtim_ops s ∙ ap (find_name rtim_ops) h ∙ find_name-op_str op,
)
