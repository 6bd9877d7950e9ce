-- ===== src/Escrow/Advances.antt =====
-- A slot only moves on: its Root never changes, its version only rises, and what it takes is signed.
use jeeves.Common.{
  ℕ, ◌<◌, ◌≡◌, refl, arith, subst, Bool, ◌&&◌, ◌==◌, List, [], ◌∷◌, some, String, str_eq, find,
  Option-cases, Bool-cases, ◌⊎◌, inl, inr,
}
use jeeves.Store.{Db, RecoveryEscrow}
use jeeves.Escrow.{EscrowWrite, update_escrow}

-- A row that is the same, or a later version under the same Root.
pub record IsLater (row later : RecoveryEscrow) : Type 0 where
  pub root : later.root_pk ≡ row.root_pk
  pub moved : (later ≡ row) ⊎ (row.version < later.version)

-- What a look-up finds is found again, the same or later.
abbrev pub AdvancesAt : (RecoveryEscrow → Bool) → List RecoveryEscrow → List RecoveryEscrow → Type 0
AdvancesAt p before after =
    (row : RecoveryEscrow)
    → find p before ≡ some row
    → (later : RecoveryEscrow) × (find p after ≡ some later) × IsLater row later

abbrev pub at_slot : ℕ → String → RecoveryEscrow → Bool
at_slot w user_id r = r.workspace_id == w && str_eq r.user_id user_id

-- Every slot that is written holds the same row or a later one.
abbrev pub Advances : Db → Db → Type 0
Advances before after =
    (w : ℕ) (user_id : String) → AdvancesAt (at_slot w user_id) before.escrows after.escrows

pub same_row : (row : RecoveryEscrow) → IsLater row row
same_row row = record { root = refl; moved = inl refl }

AdvancesAt-head :
    (p : RecoveryEscrow → Bool) (r later : RecoveryEscrow) (rs : List RecoveryEscrow)
    → IsLater r later
    → p later ≡ p r
    → AdvancesAt p (r ∷ rs) (later ∷ rs)
AdvancesAt-head p r later rs moved same row found = elim (Bool-cases (p r)) [
  | inl here ↦
      let this : r ≡ row = ground arith in
      (later, rw (same, here) refl, subst (λ x. IsLater x later) this moved)
  | inr there ↦ (row, rw (same, there) (ground arith), same_row row)
]

AdvancesAt-tail :
    (p : RecoveryEscrow → Bool) (r : RecoveryEscrow) (rs later : List RecoveryEscrow)
    → AdvancesAt p rs later
    → AdvancesAt p (r ∷ rs) (r ∷ later)
AdvancesAt-tail p r rs later advances row found = elim (Bool-cases (p r)) [
  | inl here ↦ (row, rw here (ground arith), same_row row)
  | inr there ↦
      let (next, found_next, moved) = advances row (ground arith) in
      (next, rw there found_next, moved)
]

pub update_escrow-Advances :
    (w : ℕ) (user_id : String) (observed : ℕ) (write : EscrowWrite)
    (rows updated : List RecoveryEscrow)
    → observed < write.version
    → update_escrow w user_id observed write rows ≡ some updated
    → (w' : ℕ) (user' : String) → AdvancesAt (at_slot w' user') rows updated
unfolding update_escrow
update_escrow-Advances w user_id observed write [] updated lt h w' user' = absurd (ground arith)
update_escrow-Advances w user_id observed write (r ∷ rs) updated lt h w' user' =
    elim (Bool-cases (at_slot w user_id r)) [
      | inl slot ↦
          let later : RecoveryEscrow = record r {
            version = write.version;
            blob = write.blob;
            root_sig = write.root_sig;
          } in
          subst (AdvancesAt (at_slot w' user') (r ∷ rs)) {x = later ∷ rs} {y = updated}
            (ground arith)
            (AdvancesAt-head (at_slot w' user') r later rs
              (record { root = refl; moved = inr (ground arith) }) refl)
      | inr other ↦ elim (Option-cases (update_escrow w user_id observed write rs)) [
        | inl none_there ↦ absurd (ground arith)
        | inr (rest, later) ↦
            subst (AdvancesAt (at_slot w' user') (r ∷ rs)) {x = r ∷ rest} {y = updated}
              (ground arith)
              (AdvancesAt-tail (at_slot w' user') r rs rest
                (update_escrow-Advances w user_id observed write rs rest lt later w' user'))
      ]
    ]

-- The row that the guarded UPDATE leaves in its slot.
pub update_escrow-found :
    (w : ℕ) (user_id : String) (observed : ℕ) (write : EscrowWrite)
    (rows updated : List RecoveryEscrow)
    → update_escrow w user_id observed write rows ≡ some updated
    → (old : RecoveryEscrow) × (find (at_slot w user_id) rows ≡ some old)
      × ((old.version ≡ observed)
          × (find (at_slot w user_id) updated
              ≡ some (record old {
                version = write.version;
                blob = write.blob;
                root_sig = write.root_sig;
              })))
unfolding update_escrow
update_escrow-found w user_id observed write [] updated h = absurd (ground arith)
update_escrow-found w user_id observed write (r ∷ rs) updated h =
    elim (Bool-cases (at_slot w user_id r)) [
      | inl slot ↦
          let later : RecoveryEscrow = record r {
            version = write.version;
            blob = write.blob;
            root_sig = write.root_sig;
          } in
          (
            r,
            rw slot refl,
            (
              ground arith,
              subst (λ l. find (at_slot w user_id) l ≡ some later) {x = later ∷ rs} {y = updated}
                  (ground arith) (rw slot refl),
            ),
          )
      | inr other ↦ elim (Option-cases (update_escrow w user_id observed write rs)) [
        | inl none_there ↦ absurd (ground arith)
        | inr (rest, later) ↦
            let (old, found, (version, now)) =
              update_escrow-found w user_id observed write rs rest later in
            (
              old,
              rw other found,
              (
                version,
                subst
                    (λ l.
                      find (at_slot w user_id) l
                      ≡ some (record old {
                        version = write.version;
                        blob = write.blob;
                        root_sig = write.root_sig;
                      }))
                    {x = r ∷ rest} {y = updated} (ground arith) (rw other now),
              ),
            )
      ]
    ]
