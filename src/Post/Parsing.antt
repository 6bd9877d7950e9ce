-- ===== src/Post/Parsing.antt =====
-- What the parsing loop of `post_ops` lets through.
use jeeves.Common.{
  ℕ, suc, ◌≤◌, ◌≡◌, refl, arith, subst, List, [], ◌∷◌, String, length, ok, >>=-eq-ok, ok-injective,
}
use jeeves.Crypto.{Primitives}
use jeeves.Store.{Member}
use jeeves.Envelope.Header.{parse}
use jeeves.Envelope.Framing.{minimum_envelope_bytes_for_suite}
use jeeves.Envelope.Wire.{check_served}
use jeeves.Log.{ParsedOp}
use jeeves.Post.{parse_served, parse_op, parse_ops}

-- An op that the log may hold for a Member in a Workspace.
pub record IsPostable (w : ℕ) (member : Member) (op : ParsedOp) : Type 0 where
  pub header : parse op.envelope ≡ ok op.header
  pub long_enough : minimum_envelope_bytes_for_suite op.header.suite ≤ length op.envelope
  pub served : check_served op.header ≡ ok tt
  pub workspace : op.header.workspace_id ≡ w
  pub author : op.header.author_member_id ≡ member.member_id

abbrev pub AllPostable : ℕ → Member → List ParsedOp → Type 0
AllPostable w member [] = Unit
AllPostable w member (op ∷ ops) = IsPostable w member op × AllPostable w member ops

parse_op-IsPostable :
    (lib : Primitives) (w : ℕ) (member : Member) (index : ℕ) (encoded : String) (op : ParsedOp)
    → parse_op lib w member index encoded ≡ ok op
    → IsPostable w member op
unfolding parse_op parse_served
parse_op-IsPostable lib w member index encoded op h = record {
  header = ground arith;
  long_enough = ground arith;
  served = ground arith;
  workspace = ground arith;
  author = ground arith;
}

-- A batch that parses has one op for each encoded one, and every op has a header that its envelope
-- carries, the length its suite asks for, a served suite and class, this Workspace and this author.
pub parse_ops-AllPostable :
    (lib : Primitives) (w : ℕ) (member : Member) (index : ℕ) (body : List String)
    (ops : List ParsedOp)
    → parse_ops lib w member index body ≡ ok ops
    → (length ops ≡ length body) × AllPostable w member ops
unfolding parse_ops
parse_ops-AllPostable lib w member index [] ops h =
    subst (λ (os : List ParsedOp). (length os ≡ 0) × AllPostable w member os) (ok-injective h)
      (refl, tt)
parse_ops-AllPostable lib w member index (encoded ∷ rest) ops h =
    let (op, first, h1) = >>=-eq-ok (parse_op lib w member index encoded) _ h in
    let (later, rest_ok, h2) = >>=-eq-ok (parse_ops lib w member (suc index) rest) _ h1 in
    let (size, all_ok) = parse_ops-AllPostable lib w member (suc index) rest later rest_ok in
    subst (λ (os : List ParsedOp). (length os ≡ suc (length rest)) × AllPostable w member os)
      (ok-injective h2)
      (omega (arith, size), (parse_op-IsPostable lib w member index encoded op first, all_ok))
