-- ===== src/Hub/Socket.antt =====
-- `signal_socket` and `_pump_signals` of backend/app/sync/routes.py: the handshake, and one connected
-- socket as a machine that the hub and the peer move too.
use jeeves.Common.{
  ℕ, suc, ◌≡◌, Bool, true, false, [], Option, String, Result, ok, ◌>>=◌, ◌>>◌, or_raise, catch_as,
}
use jeeves.Crypto.{Primitives}
use jeeves.Store.{Db, Member}
use jeeves.Grants.{refuse_if_revoked}
use jeeves.Ids.{require_derivable_workspace}
use jeeves.Auth.{AuthPrimitives, resolve_member_token}
use jeeves.Hub.{SignalHub, subscribe}

abbrev pub signal_close_protocol_error : ℕ
signal_close_protocol_error = 4400

abbrev pub signal_close_unauthenticated : ℕ
signal_close_unauthenticated = 4401

abbrev pub signal_close_forbidden : ℕ
signal_close_forbidden = 4403

-- The Member of a handshake, or the code that the socket is closed with. `frame` is the text of the
-- first frame, `none` where none came in time or it was no text.
unfoldable pub authorize_socket :
    Primitives → AuthPrimitives → Db → ℕ → Option String → Result ℕ Member
authorize_socket lib auth db w frame = do
  token ← or_raise frame signal_close_protocol_error
  member ← catch_as (λ e. signal_close_unauthenticated) (resolve_member_token auth db token)
  catch_as (λ e. signal_close_forbidden)
      (require_derivable_workspace lib w member.user_id [] >> refuse_if_revoked db w member)
  ok member

-- The handshake, up to the subscription.
unfoldable pub signal_socket :
    Primitives → AuthPrimitives → Db → SignalHub → ℕ → ℕ → Option String → Result ℕ SignalHub
unfolding authorize_socket
signal_socket lib auth db hub w identity frame = authorize_socket lib auth db w frame >>= λ member.
    ok (subscribe hub w member.member_id identity)

-- Where the endpoint stands once it has subscribed.
pub data Pc : Type 0 where
  sending_poke : Pc  -- before `send_text("")`
  waiting : Pc  -- in `asyncio.wait`
  has_news : Pc  -- behind the wait, with the waiter done and the revocation not
  sending_keepalive : Pc  -- before `send_text(KEEPALIVE_FRAME)`
  closing : Pc  -- before the close with 4403
  ended : Pc

-- One socket: where it stands, its subscription's events, and whether there is news of which the
-- peer was sent no poke.
pub record Socket : Type 0 where
  pub pc : Pc
  pub event : Bool
  pub revoked : Bool
  pub untold : Bool

-- The endpoint starts with a poke for what was appended before it subscribed.
abbrev pub connected : Socket
connected = record { pc = Pc.sending_poke; event = false; revoked = false; untold = true }

-- The steps of the endpoint. A revocation is looked at first, the reader's end is the
-- peer's step, and the event is cleared before the poke is sent.
pub data Own (s : Socket) : Socket → Type 0 where
  poke_sent : s.pc ≡ Pc.sending_poke → Own s (record s { pc = Pc.waiting; untold = false })
  keepalive_sent : s.pc ≡ Pc.sending_keepalive → Own s (record s { pc = Pc.waiting })
  woken_revoked : s.pc ≡ Pc.waiting → s.revoked ≡ true → Own s (record s { pc = Pc.closing })
  woken_by_news :
      s.pc ≡ Pc.waiting → s.event ≡ true → s.revoked ≡ false → Own s (record s { pc = Pc.has_news })
  event_cleared : s.pc ≡ Pc.has_news → Own s (record s { pc = Pc.sending_poke; event = false })
  timed_out :
      s.pc ≡ Pc.waiting
      → s.event ≡ false
      → s.revoked ≡ false
      → Own s (record s { pc = Pc.sending_keepalive })
  closed : s.pc ≡ Pc.closing → Own s (record s { pc = Pc.ended })

-- The steps of the others: `hub.notify`, `hub.revoke`, and a peer that goes away, which ends the
-- endpoint at its next send or wait.
pub data Other (s : Socket) : Socket → Type 0 where
  news : Other s (record s { event = true; untold = true })
  revocation : Other s (record s { revoked = true })
  peer_gone : Other s (record s { pc = Pc.ended })

pub data Step (s t : Socket) : Type 0 where
  own : Own s t → Step s t
  other : Other s t → Step s t

-- The states that a connection comes to.
pub data Reach : Socket → Type 0 where
  connects : Reach connected
  later : {s t : Socket} → Reach s → Step s t → Reach t

-- A number of steps of the endpoint alone.
pub data Runs : Socket → ℕ → Socket → Type 0 where
  stay : {s : Socket} → Runs s 0 s
  go : {n : ℕ} {s t u : Socket} → Own s t → Runs t n u → Runs s (suc n) u
