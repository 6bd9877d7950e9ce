-- ===== src/Escrow/Slot.antt =====
-- What a PUT of the recovery escrow leaves in the tables.
use jeeves.Common.{
  ℕ, ◌<◌, ◌≡◌, sym, ap, ◌∙◌, arith, subst, true, false, [], ◌∷◌, ◌++◌, some, String, str_eq_iff,
  is_some, find-append, find-append_new, find-holds, Result-cases, Option-cases, inl, inr, ok,
  some-eq,
}
use jeeves.Crypto.{Primitives}
use jeeves.Store.{Db, User, RecoveryEscrow, get_escrow}
use jeeves.Escrow.{
  EscrowWrite, RecoveryEscrowRequest, update_escrow, new_escrow, create_escrow, replace_escrow,
  write_escrow, slot_root, verify_escrow_signature, decode_escrow, put_recovery_escrow,
}
use jeeves.Escrow.Advances.{
  at_slot, Advances, same_row, update_escrow-Advances, update_escrow-found,
}

-- The slot holds what was answered, and the rest of the tables went on from there.
abbrev pub Writes : Db → Db → ℕ → String → RecoveryEscrow → Type 0
Writes committed db w user_id out = (get_escrow db w user_id ≡ some out) × Advances committed db

create_escrow-Writes :
    (committed : Db) (w : ℕ) (user_id : String) (write : EscrowWrite) (db : Db)
    (out : RecoveryEscrow)
    → create_escrow committed w user_id write ≡ ok (db, out)
    → Writes committed db w user_id out × ((out.version ≡ 1) × (out ≡ new_escrow w user_id write))
unfolding create_escrow
create_escrow-Writes committed w user_id write db out h =
    let row = new_escrow w user_id write in
    let fresh : is_some (get_escrow committed w user_id) ≡ false = ground arith in
    let mine : at_slot w user_id row ≡ true = ground (arith, str_eq_iff user_id user_id) in
    let out_is : out ≡ row = ground arith in
    let db_is : record committed { escrows = committed.escrows ++ row ∷ [] } ≡ db = ground arith in
    (
      (
        subst (λ (d : Db). get_escrow d w user_id ≡ some out) db_is
            (rw out_is (find-append_new (at_slot w user_id) committed.escrows row fresh mine)),
        subst (Advances committed) db_is (λ w' user' found_row found. (
          found_row,
          find-append (at_slot w' user') committed.escrows (row ∷ []) found,
          same_row found_row,
        )),
      ),
      (ground arith, out_is),
    )

replace_escrow-Writes :
    (reading committed : Db) (w : ℕ) (user_id : String) (stored : RecoveryEscrow)
    (write : EscrowWrite) (db : Db) (out : RecoveryEscrow)
    → Advances reading committed
    → get_escrow reading w user_id ≡ some stored
    → replace_escrow committed w user_id stored write ≡ ok (db, out)
    → Writes committed db w user_id out
      × ((stored.version < out.version)
          × (out ≡ record (new_escrow w user_id write) { root_pk = stored.root_pk }))
unfolding replace_escrow
replace_escrow-Writes reading committed w user_id stored write db out advances known h =
    elim (Option-cases (update_escrow w user_id stored.version write committed.escrows)) [
      | inl lost ↦ absurd (ground arith)
      | inr (rows, updated) ↦
          let higher : stored.version < write.version = ground arith in
          let (old, found, (version, now)) =
            update_escrow-found w user_id stored.version write committed.escrows rows updated in
          let (later, found_later, moved) = advances w user_id stored known in
          let keys = find-holds (at_slot w user_id) committed.escrows old found in
          let out_is : out ≡ record (new_escrow w user_id write) { root_pk = stored.root_pk } =
            ground arith in
          let db_is : record committed { escrows = rows } ≡ db = ground arith in
          let same_old : later ≡ old = some-eq (sym found_later ∙ found) in
          let root : old.root_pk ≡ stored.root_pk =
            ap (λ (r : RecoveryEscrow). r.root_pk) (sym same_old) ∙ moved.root in
          let now_out : record old {
            version = write.version;
            blob = write.blob;
            root_sig = write.root_sig;
          }
              ≡ out =
            ground (arith, root, str_eq_iff old.user_id user_id) in
          (
            (
              subst (λ (d : Db). get_escrow d w user_id ≡ some out) db_is (now ∙ ap some now_out),
              subst (Advances committed) db_is (
                  update_escrow-Advances w user_id stored.version write committed.escrows rows
                    higher updated),
            ),
            (ground arith, out_is),
          )
    ]

-- What the checks of a PUT that is answered found.
record Puts (lib : Primitives) (reading committed : Db) (w : ℕ) (user_id : String) (db : Db)
    (out : RecoveryEscrow) : Type 0 where
  write : EscrowWrite
  signed :
      verify_escrow_signature lib w write.version write.blob write.root_sig
        (slot_root (get_escrow reading w user_id) write.root_pk)
      ≡ ok tt
  written : write_escrow committed w user_id (get_escrow reading w user_id) write ≡ ok (db, out)

put_recovery_escrow-Puts :
    (lib : Primitives) (reading committed : Db) (w : ℕ) (user : User) (body : RecoveryEscrowRequest)
    (db : Db) (out : RecoveryEscrow)
    → put_recovery_escrow lib reading committed w user body ≡ ok (db, out)
    → Puts lib reading committed w user.user_id db out
unfolding put_recovery_escrow
put_recovery_escrow-Puts lib reading committed w user body db out h =
    elim (Result-cases (decode_escrow lib body)) [
      | inr (e, bad) ↦ absurd (ground arith)
      | inl (write, decoded) ↦
          elim (Result-cases (
            verify_escrow_signature lib w write.version write.blob write.root_sig
              (slot_root (get_escrow reading w user.user_id) write.root_pk))) [
                | inr (e, bad) ↦ absurd (ground arith)
                | inl (tt, signed) ↦ record {
                  write = write;
                  signed = signed;
                  written = ground arith;
                }
              ]
    ]

-- A PUT of the recovery escrow that is answered leaves in the slot what it answers, signed under the
-- Root of that slot; every slot that was written keeps its Root and its row, or holds a higher
-- version. What was read is no later than what is committed.
pub put_recovery_escrow-Writes :
    (lib : Primitives) (reading committed : Db) (w : ℕ) (user : User) (body : RecoveryEscrowRequest)
    (db : Db) (out : RecoveryEscrow)
    → Advances reading committed
    → put_recovery_escrow lib reading committed w user body ≡ ok (db, out)
    → Writes committed db w user.user_id out
      × (verify_escrow_signature lib w out.version out.blob out.root_sig out.root_pk ≡ ok tt)
unfolding write_escrow
put_recovery_escrow-Writes lib reading committed w user body db out advances h =
    let puts = put_recovery_escrow-Puts lib reading committed w user body db out h in
    let written = puts.written in
    let signed = puts.signed in
    elim (Option-cases (get_escrow reading w user.user_id)) [
      | inl absent ↦
          let (writes, (_, same)) =
            create_escrow-Writes committed w user.user_id puts.write db out (ground arith) in
          (writes, ground arith)
      | inr (stored, known) ↦
          let (writes, (_, same)) =
            replace_escrow-Writes reading committed w user.user_id stored puts.write db out advances
              known (ground arith) in
          (writes, ground arith)
    ]
