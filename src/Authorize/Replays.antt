-- ===== src/Authorize/Replays.antt =====
-- The exemption of a replayed grant op, routes.py: its verification does not look at the index.
use jeeves.Common.{ℕ, ◌≡◌, arith, true, false, List, some, String, ok, ==_refl}
use jeeves.Envelope.Header.{OpHeader}
use jeeves.Grants.{GrantIndex, GrantState, state, add}
use jeeves.Grants.Laws.{state-put_state}
use jeeves.Control.Certificates.{GrantCertificate}
use jeeves.Control.Payload.{ControlPayload}
use jeeves.Authorize.Certs.{Context, verify_grant}

add-live :
    (index : GrantIndex) (g m : ℕ) (role : String)
    → state (add index g m role) g ≡ some (record { member_id = m; role = role; revoked = false })
unfolding add
add-live index g m role =
    let live : GrantState = record { member_id = m; role = role; revoked = false } in
    ground (arith, state-put_state index g g live, ==_refl g)

-- A replayed grant op that passes against one grant index passes against every other, also against
-- one in which its grant is revoked; and adding its grant makes that grant live again.
pub verify_grant-replay_revives :
    (ctx : Context) (payload : ControlPayload) (header : OpHeader) (index : ℕ)
    → (grants later : GrantIndex) (staged_kinds : List (ℕ × String))
      (certificate : GrantCertificate)
    → verify_grant ctx payload header index grants staged_kinds true ≡ ok certificate
    → (verify_grant ctx payload header index later staged_kinds true ≡ ok certificate)
      × (state
            (add later certificate.grant_id certificate.member_id certificate.role)
            certificate.grant_id
          ≡ some (record {
            member_id = certificate.member_id;
            role = certificate.role;
            revoked = false;
          }))
unfolding verify_grant
verify_grant-replay_revives ctx payload header index grants later staged_kinds certificate h =
    (h, add-live later certificate.grant_id certificate.member_id certificate.role)
