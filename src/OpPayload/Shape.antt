-- ===== src/OpPayload/Shape.antt =====
-- What `guard_op_class_shape` lets through.
use jeeves.Common.{
  ℕ, ◌≡◌, refl, ap, inl, inr, Bool-cases, ◌==◌, ◌≢◌, ◌↔◌, true, false, Option, none, some, all,
  is_some, ok, arith,
}
use jeeves.OpPayload.{OpPayload, FieldWrite, guard_op_class_shape}

-- A compaction names the clock of each field and of its tombstone, and nothing else carries a
-- clock of its tombstone.
pub record IsShaped (payload : OpPayload) (op_class : ℕ) : Type 0 where
  pub fenced : op_class ≢ 4 → payload.tombstone_hlc ≡ none
  pub clocked : op_class ≡ 4 → all (λ (write : FieldWrite). is_some write.hlc) payload.fields ≡ true
  pub buried : op_class ≡ 4 → payload.tombstone ≡ true → is_some payload.tombstone_hlc ≡ true

fenced_of : {A : Type 0} (o : Option A) → is_some o ≡ false → o ≡ none
fenced_of none h = refl
fenced_of (some a) h = cc

-- The guard passes exactly the payloads of that shape.
pub guard_op_class_shape_iff :
    (payload : OpPayload) (op_class : ℕ)
    → (guard_op_class_shape payload op_class ≡ ok tt) ↔ IsShaped payload op_class
unfolding guard_op_class_shape
guard_op_class_shape_iff payload op_class = (
  λ e. record {
    fenced = λ other. fenced_of payload.tombstone_hlc (ground arith);
    clocked = λ cls. ground arith;
    buried = λ cls dead. ground arith;
  },
  λ s. elim (Bool-cases (op_class == 4)) [
    | inl is4 ↦ let eq : op_class ≡ 4 = ground arith in ground (arith, s.clocked eq, s.buried eq)
    | inr not4 ↦
        let ne : op_class ≢ 4 = ground arith in
        let open_end : is_some payload.tombstone_hlc ≡ false = ap is_some (s.fenced ne) in
        ground arith
  ],
)
