-- ===== src/Authorize/Epochs.antt =====
-- The key epoch that the walk carries: a rotation moves it one on, and nothing else moves it.
use jeeves.Common.{
  ℕ, suc, ◌+◌, ◌≡◌, refl, arith, subst, List, [], ◌∷◌, ◌++◌, option_or, ok, >>=-eq-ok, ok-injective,
}
use jeeves.Common.Bytes.{Bytes}
use jeeves.Control.Certificates.{as_registration}
use jeeves.Control.Payload.{ControlPayload, decode}
use jeeves.Log.{ParsedOp}
use jeeves.Authorize.Certs.{Context}
use jeeves.Authorize.Walk.{
  Walk, Admitted, ControlAdmission, founded, registered, granted, revoked, rotated, admit_genesis,
  admit_register, admit_grant, admit_revoke, admit_rotate, walk_op, walk,
}
use jeeves.Authorize.Step.{
  ControlStep, genesis_step, register_step, grant_step, revoke_step, rotate_step, Step, content_op,
  control_op, walk_op-Step,
}
use jeeves.Authorize.Signers.{decode_control_payload-eq-ok}
use jeeves.Authorize.Ceilings.{verify_rotate-next}
use jeeves.Authorize.Admission.{stage_body-Same}

-- The rotations among the admitted control ops.
abbrev pub is_rotation : Admitted → ℕ
is_rotation (founded c) = 0
is_rotation (registered c) = 0
is_rotation (granted c) = 0
is_rotation (revoked c) = 0
is_rotation (rotated c) = 1

unfoldable pub rotations : List ControlAdmission → ℕ
rotations [] = 0
rotations (a ∷ rest) = is_rotation a.admitted + rotations rest

rotations-append :
    (xs ys : List ControlAdmission) → rotations (xs ++ ys) ≡ rotations xs + rotations ys
unfolding rotations
rotations-append [] ys = omega arith
rotations-append (a ∷ xs) ys = omega (arith, rotations-append xs ys)

rotations-admit :
    (xs : List ControlAdmission) (i : ℕ) (what : Admitted)
    → rotations (xs ++ record { index = i; admitted = what } ∷ []) ≡ rotations xs + is_rotation what
unfolding rotations
rotations-admit xs i what =
    omega (arith, rotations-append xs (record { index = i; admitted = what } ∷ []))

-- The epoch counted from 0, where an unkeyed Workspace stands, in step with the rotations.
abbrev pub epoch_of : Walk → ℕ
epoch_of s = option_or s.current_epoch 0

abbrev pub InStep : Walk → Walk → Type 0
InStep s s' = epoch_of s' + rotations s.control ≡ epoch_of s + rotations s'.control

control-InStep :
    (ctx : Context) (index : ℕ) (op : ParsedOp) (s s' : Walk) (bytes : Bytes)
    (payload : ControlPayload)
    → decode ctx.lib bytes ≡ ok payload
    → ControlStep ctx index op s payload s'
    → InStep s s'
unfolding admit_genesis admit_register admit_grant admit_revoke admit_rotate
control-InStep ctx index op s _ bytes payload decoded (genesis_step c g v) =
    omega (arith, rotations-admit s.control index (founded (as_registration c)))
control-InStep ctx index op s _ bytes payload decoded (register_step c r f v) =
    omega (arith, rotations-admit s.control index (registered c))
control-InStep ctx index op s _ bytes payload decoded (grant_step c k f a v) =
    omega (arith, rotations-admit s.control index (granted c))
control-InStep ctx index op s _ bytes payload decoded (revoke_step c k f a v) =
    omega (arith, rotations-admit s.control index (revoked c))
control-InStep ctx index op s _ bytes payload decoded (rotate_step c k f a v) = omega (
  arith,
  rotations-admit s.control index (rotated c),
  verify_rotate-next ctx bytes payload op.header index s.current_epoch c decoded v,
)

Step-InStep :
    (ctx : Context) (index : ℕ) (op : ParsedOp) (s s' : Walk) → Step ctx index op s s' → InStep s s'
Step-InStep ctx index op s s' (content_op c step) =
    let same = stage_body-Same ctx index op s s' step.staged in rw (same.epoch, same.control) refl
Step-InStep ctx index op s s' (control_op payload c decoded step) =
    let (inner, _, read) = decode_control_payload-eq-ok ctx.lib op.envelope index payload decoded in
    control-InStep ctx index op s s' inner payload read step

-- The walk's epoch moves on by one for each rotation it admits, and for nothing else.
pub walk-epoch :
    (ctx : Context) (index : ℕ) (ops : List ParsedOp) (s s' : Walk)
    → walk ctx index ops s ≡ ok s'
    → epoch_of s' + rotations s.control ≡ epoch_of s + rotations s'.control
unfolding walk
walk-epoch ctx index [] s s' h = subst (λ (t : Walk). InStep s t) (ok-injective h) refl
walk-epoch ctx index (op ∷ ops) s s' h =
    let (t, first, rest) = >>=-eq-ok (walk_op ctx index op s) _ h in
    let head = Step-InStep ctx index op s t (walk_op-Step ctx index op s t first) in
    let tail = walk-epoch ctx (suc index) ops t s' rest in omega arith
