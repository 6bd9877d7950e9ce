-- ===== src/Authorize/Admission.antt =====
-- What an admitted batch has been held to, op by op at its position.
use jeeves.Common.{
  ℕ, suc, ◌+◌, ◌≡◌, refl, sym, arith, subst, true, false, List, [], ◌∷◌, ◌++◌, ◌==◌, length, ok,
  >>=-eq-ok, ok-injective,
}
use jeeves.Crypto.{Primitives}
use jeeves.Store.{Db, Member}
use jeeves.Grants.{grant_index, rows_of_workspace, add}
use jeeves.Grants.Laws.{
  Distinct, LiveWhere, admits, require_role_iff, put_state-Distinct, revoke-Distinct,
  index_of_rows-Distinct,
}
use jeeves.Control.Payload.{ControlPayload}
use jeeves.Envelope.{op_class_control}
use jeeves.Log.{ParsedOp}
use jeeves.Authorize.Certs.{Context, decode_control_payload}
use jeeves.Authorize.Walk.{
  Walk, admit_genesis, admit_register, admit_grant, admit_revoke, admit_rotate, admit_prune,
  stage_body, walk_op, walk, context, start_walk, verify_and_authorize,
}
use jeeves.Authorize.Step.{
  ControlStep, genesis_step, register_step, grant_step, revoke_step, rotate_step, Step, content_op,
  control_op, walk_op-Step,
}
use jeeves.Authorize.Signers.{Authority, decode_control_payload-eq-ok, ControlStep-Authority}
use jeeves.Authorize.Ceilings.{InWindow, require_fresh_key_epoch_iff}

-- The walk over a batch goes through the state that each of its prefixes leaves.
pub walk-append :
    (ctx : Context) (index : ℕ) (xs ys : List ParsedOp) (s s' : Walk)
    → walk ctx index (xs ++ ys) s ≡ ok s'
    → (t : Walk) × (walk ctx index xs s ≡ ok t) × (walk ctx (index + length xs) ys t ≡ ok s')
unfolding walk
walk-append ctx index [] ys s s' h =
    (s, refl, subst (λ (i : ℕ). walk ctx i ys s ≡ ok s') (omega arith) h)
walk-append ctx index (op ∷ xs) ys s s' h =
    let (t, first, rest) = >>=-eq-ok (walk_op ctx index op s) _ h in
    let (u, through, last) = walk-append ctx (suc index) xs ys t s' rest in
    (u, rw (first) through, subst (λ (i : ℕ). walk ctx i ys u ≡ ok s') (omega arith) last)

-- What staging leaves alone.
pub record Same (s s' : Walk) : Type 0 where
  pub grants : s'.grants ≡ s.grants
  pub founded : s'.workspace_exists ≡ s.workspace_exists
  pub epoch : s'.current_epoch ≡ s.current_epoch
  pub control : s'.control ≡ s.control

pub stage_body-Same :
    (ctx : Context) (index : ℕ) (op : ParsedOp) (s s' : Walk)
    → stage_body ctx index op s ≡ ok s'
    → Same s s'
unfolding stage_body admit_prune
stage_body-Same ctx index op s s' h = record {
  grants = ground arith;
  founded = ground arith;
  epoch = ground arith;
  control = ground arith;
}

control-Distinct :
    (ctx : Context) (index : ℕ) (op : ParsedOp) (s s' : Walk) (payload : ControlPayload)
    → ControlStep ctx index op s payload s'
    → Distinct s.grants
    → Distinct s'.grants
unfolding admit_genesis admit_register admit_grant admit_revoke admit_rotate add
control-Distinct ctx index op s _ payload (genesis_step c g v) d = d
control-Distinct ctx index op s _ payload (register_step c r f v) d = d
control-Distinct ctx index op s _ payload (grant_step c k f a v) d =
    put_state-Distinct s.grants c.grant_id _ d
control-Distinct ctx index op s _ payload (revoke_step c k f a v) d =
    revoke-Distinct s.grants c.grant_id d
control-Distinct ctx index op s _ payload (rotate_step c k f a v) d = d

Step-Distinct :
    (ctx : Context) (index : ℕ) (op : ParsedOp) (s s' : Walk)
    → Step ctx index op s s'
    → Distinct s.grants
    → Distinct s'.grants
Step-Distinct ctx index op s s' (content_op c step) d =
    subst Distinct (sym (stage_body-Same ctx index op s s' step.staged).grants) d
Step-Distinct ctx index op s s' (control_op payload c decoded step) d =
    control-Distinct ctx index op s s' payload step d

-- The walk keeps the keys of its grant index distinct.
pub walk-Distinct :
    (ctx : Context) (index : ℕ) (ops : List ParsedOp) (s s' : Walk)
    → walk ctx index ops s ≡ ok s'
    → Distinct s.grants
    → Distinct s'.grants
unfolding walk
walk-Distinct ctx index [] s s' h d = subst (λ (t : Walk). Distinct t.grants) (ok-injective h) d
walk-Distinct ctx index (op ∷ ops) s s' h d =
    let (t, first, rest) = >>=-eq-ok (walk_op ctx index op s) _ h in
    walk-Distinct ctx (suc index) ops t s' rest
      (Step-Distinct ctx index op s t (walk_op-Step ctx index op s t first) d)

-- What a content, compaction or prune op has been held to in the state before it.
pub record Authorized (ctx : Context) (op : ParsedOp) (t : Walk) : Type 0 where
  pub founded : t.workspace_exists ≡ true
  pub grant : LiveWhere (admits op.header.op_class) t.grants ctx.current_member.member_id
  pub epoch : InWindow op.header.key_epoch t.current_epoch

content-Authorized :
    (ctx : Context) (index : ℕ) (op : ParsedOp) (t u : Walk)
    → (op.header.op_class == op_class_control) ≡ false
    → Distinct t.grants
    → Step ctx index op t u
    → Authorized ctx op t
content-Authorized ctx index op t u content d (control_op payload control decoded step) =
    cc (control, content)
content-Authorized ctx index op t u content d (content_op _ step) = record {
  founded = step.founded;
  grant =
      (require_role_iff t.grants ctx.current_member.member_id op.header.op_class index d).0
        step.role;
  epoch = (require_fresh_key_epoch_iff op.header t.current_epoch index).0 step.epoch;
}

grant_index-Distinct : (db : Db) (w : ℕ) → Distinct (grant_index db w)
unfolding grant_index
grant_index-Distinct db w = index_of_rows-Distinct (rows_of_workspace w db.grants) [] tt

-- Every op of an admitted batch that is no control op was authorized at its own position: in the
-- state that the ops before it left, the Workspace was founded, the author held a live grant whose
-- role admits the op's class, and the op's epoch was the current one or the one before.
pub verify_and_authorize-Authorized :
    (lib : Primitives) (db : Db) (w : ℕ) (member : Member) (before after : List ParsedOp)
    (op : ParsedOp) (s : Walk)
    → (op.header.op_class == op_class_control) ≡ false
    → verify_and_authorize lib db w member (before ++ op ∷ after) ≡ ok s
    → (t : Walk) × (verify_and_authorize lib db w member before ≡ ok t)
      × Authorized (context lib db w member) op t
unfolding verify_and_authorize
verify_and_authorize-Authorized lib db w member before after op s content h =
    let ctx = context lib db w member in
    let (t, through, rest) = walk-append ctx 0 before (op ∷ after) (start_walk db w) s h in
    let (u, turn, _) = >>=-eq-ok (walk_op ctx (0 + length before) op t) _ (unfold walk in rest) in
    let d =
      walk-Distinct ctx 0 before (start_walk db w) t through
        (unfold start_walk in grant_index-Distinct db w) in
    (
      t,
      through,
      content-Authorized ctx (0 + length before) op t u content d
          (walk_op-Step ctx (0 + length before) op t u turn),
    )

Step-Authority :
    (ctx : Context) (index : ℕ) (op : ParsedOp) (t u : Walk)
    → (op.header.op_class == op_class_control) ≡ true
    → Distinct t.grants
    → Step ctx index op t u
    → (payload : ControlPayload) × (decode_control_payload ctx.lib op.envelope index ≡ ok payload)
      × Authority ctx t payload
Step-Authority ctx index op t u control d (content_op content step) = cc (control, content)
Step-Authority ctx index op t u control d (control_op payload _ decoded step) =
    let (inner, _, read) = decode_control_payload-eq-ok ctx.lib op.envelope index payload decoded in
    (payload, decoded, ControlStep-Authority ctx index op t u inner payload d read step)

-- Every control op of an admitted batch has a payload that decodes. Where its type or its authority
-- claims the signature of Root, its signature verifies under the Root key of the User. Elsewhere its
-- author held at its position a live grant of a role that the matrix admits for control ops, and its
-- signature verifies under the author's key, or it is a rotation, which has no certificate.
pub verify_and_authorize-owner :
    (lib : Primitives) (db : Db) (w : ℕ) (member : Member) (before after : List ParsedOp)
    (op : ParsedOp) (s : Walk)
    → (op.header.op_class == op_class_control) ≡ true
    → verify_and_authorize lib db w member (before ++ op ∷ after) ≡ ok s
    → (t : Walk) × (verify_and_authorize lib db w member before ≡ ok t)
      × (payload : ControlPayload) × (decode_control_payload lib op.envelope (length before)
          ≡ ok payload)
      × Authority (context lib db w member) t payload
unfolding verify_and_authorize context
verify_and_authorize-owner lib db w member before after op s control h =
    let ctx = context lib db w member in
    let (t, through, rest) = walk-append ctx 0 before (op ∷ after) (start_walk db w) s h in
    let here = subst (λ (i : ℕ). walk ctx i (op ∷ after) t ≡ ok s) (omega arith) rest in
    let (u, turn, _) = >>=-eq-ok (walk_op ctx (length before) op t) _ (unfold walk in here) in
    let d =
      walk-Distinct ctx 0 before (start_walk db w) t through
        (unfold start_walk in grant_index-Distinct db w) in
    let (payload, decoded, authority) =
      Step-Authority ctx (length before) op t u control d
        (walk_op-Step ctx (length before) op t u turn) in
    (t, through, payload, decoded, authority)
