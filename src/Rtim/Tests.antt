-- ===== src/Rtim/Tests.antt =====
-- Commands as messages and in memory, at concrete strings.
use crinit.Base.{◌≡◌, ◌≢◌, refl, true, [], ◌∷◌, ◌++◌, some, length, map}
use crinit.Base.Str.{Str, codes}
use crinit.Rtim.{RtimOp, c_stop, c_notify, op_str}
use crinit.Rtim.Fields.{field, more, nonempty}
use crinit.Rtim.Cmd.{parsed, refused, parse_rtim_cmd, Built, build_rtim_cmd}
use crinit.Rtim.Cmd.Parse.{given, parse_rtim_cmd-given}
use crinit.Rtim.Cmd.Build.{string_at, build_rtim_cmd-string_at}

-- A task's name behind two delimiters, and one more at the end
abbrev stop_message : Str
stop_message = codes "C_STOP" ++ 10 ∷ 10 ∷ codes "net" ++ 10 ∷ []

stop_message-parsed :
    parse_rtim_cmd (λ i. true) stop_message
    ≡ parsed (record { op = c_stop; args = codes "net" ∷ [] })
unfolding given
stop_message-parsed = (parse_rtim_cmd-given (λ i. true) stop_message).0 c_stop refl

parse_rtim_cmd-given_example :
    ((op : RtimOp)
      → field stop_message ≡ op_str op
      → parse_rtim_cmd (λ i. true) stop_message ≡ given true true op (nonempty (more stop_message)))
    × (((op : RtimOp) → field stop_message ≢ op_str op)
        → parse_rtim_cmd (λ i. true) stop_message ≡ refused)
parse_rtim_cmd-given_example = parse_rtim_cmd-given (λ i. true) stop_message

build_rtim_cmd-string_at_example :
    (c : Built) × (build_rtim_cmd (λ i. true) c_notify (codes "net" ∷ codes "READY=1" ∷ [])
      ≡ some c)
    × (length c.backing ≡ c.size)
    × (length c.pointers ≡ c.argc)
    × (map (string_at c.backing) c.pointers ≡ codes "net" ∷ codes "READY=1" ∷ [])
build_rtim_cmd-string_at_example =
    build_rtim_cmd-string_at (λ i. true) c_notify (codes "net" ∷ codes "READY=1" ∷ []) refl refl
      ((refl, (refl, (refl, tt))), ((refl, (refl, (refl, (refl, (refl, (refl, (refl, tt))))))), tt))
