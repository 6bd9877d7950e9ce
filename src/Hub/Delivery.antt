-- ===== src/Hub/Delivery.antt =====
-- No poke is lost, and a revocation ends the socket.
use jeeves.Common.{ℕ, ◌≤◌, ◌≡◌, ◌≢◌, refl, arith, subst, Bool, true, false}
use jeeves.Hub.Socket.{
  Pc, sending_poke, waiting, has_news, sending_keepalive, closing, ended, Socket, Own, poke_sent,
  keepalive_sent, woken_revoked, woken_by_news, event_cleared, timed_out, closed, Other, news,
  revocation, peer_gone, own, other, Reach, connects, later, Runs, stay, go,
}

-- What the peer is owed will come: the event is set, or the poke is about to be sent, or the
-- connection is at its end.
abbrev is_coming : Pc → Bool → Bool
is_coming sending_poke event = true
is_coming closing event = true
is_coming ended event = true
is_coming waiting event = event
is_coming has_news event = event
is_coming sending_keepalive event = event

abbrev is_due : Pc → Bool → Bool
is_due closing revoked = revoked
is_due pc revoked = true

record Inv (s : Socket) : Type 0 where
  coming : s.untold ≡ true → is_coming s.pc s.event ≡ true
  due : is_due s.pc s.revoked ≡ true

coming_now : (pc : Pc) → is_coming pc true ≡ true
coming_now sending_poke = refl
coming_now closing = refl
coming_now ended = refl
coming_now waiting = refl
coming_now has_news = refl
coming_now sending_keepalive = refl

due_now : (pc : Pc) → is_due pc true ≡ true
due_now closing = refl
due_now sending_poke = refl
due_now ended = refl
due_now waiting = refl
due_now has_news = refl
due_now sending_keepalive = refl

-- What comes while the endpoint waits or sends a keepalive comes by the event.
event_set :
    (s : Socket) (pc : Pc) → Inv s → s.pc ≡ pc → s.untold ≡ true → is_coming pc s.event ≡ true
event_set s pc i at u = subst (λ p. is_coming p s.event ≡ true) at (i.coming u)

Own-Inv : {s t : Socket} → Own s t → Inv s → Inv t
Own-Inv (poke_sent at) i = record { coming = λ u. ground arith; due = refl }
Own-Inv {s} (keepalive_sent at) i = record {
  coming = λ u. event_set s sending_keepalive i at u;
  due = refl;
}
Own-Inv (woken_revoked at h) i = record { coming = λ u. refl; due = h }
Own-Inv (woken_by_news at h k) i = record { coming = λ u. h; due = refl }
Own-Inv (event_cleared at) i = record { coming = λ u. refl; due = refl }
Own-Inv {s} (timed_out at h k) i = record { coming = λ u. event_set s waiting i at u; due = refl }
Own-Inv (closed at) i = record { coming = λ u. refl; due = refl }

Other-Inv : {s t : Socket} → Other s t → Inv s → Inv t
Other-Inv {s} news i = record { coming = λ u. coming_now s.pc; due = i.due }
Other-Inv {s} revocation i = record { coming = i.coming; due = due_now s.pc }
Other-Inv peer_gone i = record { coming = λ u. refl; due = refl }

Reach-Inv : {s : Socket} → Reach s → Inv s
Reach-Inv connects = record { coming = λ u. refl; due = refl }
Reach-Inv (later r (own step)) = Own-Inv step (Reach-Inv r)
Reach-Inv (later r (other step)) = Other-Inv step (Reach-Inv r)

-- At most four steps of the endpoint to a state.
abbrev pub Soon : Socket → (Socket → Type 0) → Type 0
Soon s P = (n : ℕ) × (t : Socket) × (n ≤ 4) × (Runs s n t × P t)

abbrev pub IsTold : Socket → Type 0
IsTold t = t.untold ≡ false

abbrev pub IsEnded : Socket → Type 0
IsEnded t = t.pc ≡ ended

-- From each place of an endpoint that is not revoked, with the event where it is needed.
IsTold-soon :
    (pc : Pc) (event : Bool)
    → is_coming pc event ≡ true
    → pc ≢ ended
    → pc ≢ closing
    → Soon (record { pc = pc; event = event; revoked = false; untold = true }) IsTold
IsTold-soon sending_poke event h e c = (1, _, omega arith, (go (poke_sent refl) stay, refl))
IsTold-soon closing event h e c = absurd (c refl)
IsTold-soon ended event h e c = absurd (e refl)
IsTold-soon waiting event h e c = (
  3,
  _,
  omega arith,
  (go (woken_by_news refl h refl) (go (event_cleared refl) (go (poke_sent refl) stay)), refl),
)
IsTold-soon has_news event h e c =
    (2, _, omega arith, (go (event_cleared refl) (go (poke_sent refl) stay), refl))
IsTold-soon sending_keepalive event h e c = (
  4,
  _,
  omega arith,
  (
    go (keepalive_sent refl)
        (go (woken_by_news refl h refl) (go (event_cleared refl) (go (poke_sent refl) stay))),
    refl,
  ),
)

IsEnded-soon :
    (pc : Pc) (event untold : Bool)
    → Soon (record { pc = pc; event = event; revoked = true; untold = untold }) IsEnded
IsEnded-soon sending_poke event untold = (
  3,
  _,
  omega arith,
  (go (poke_sent refl) (go (woken_revoked refl refl) (go (closed refl) stay)), refl),
)
IsEnded-soon closing event untold = (1, _, omega arith, (go (closed refl) stay, refl))
IsEnded-soon ended event untold = (0, _, omega arith, (stay, refl))
IsEnded-soon waiting event untold =
    (2, _, omega arith, (go (woken_revoked refl refl) (go (closed refl) stay), refl))
IsEnded-soon has_news event untold = (
  4,
  _,
  omega arith,
  (
    go (event_cleared refl)
        (go (poke_sent refl) (go (woken_revoked refl refl) (go (closed refl) stay))),
    refl,
  ),
)
IsEnded-soon sending_keepalive event untold = (
  3,
  _,
  omega arith,
  (go (keepalive_sent refl) (go (woken_revoked refl refl) (go (closed refl) stay)), refl),
)

IsTold-soon_socket :
    (s : Socket) → Inv s → s.pc ≢ ended → s.revoked ≡ false → s.untold ≡ true → Soon s IsTold
IsTold-soon_socket s i open_still fresh u =
    subst (λ x. Soon x IsTold)
      {x = record { pc = s.pc; event = s.event; revoked = false; untold = true }} {y = s}
      (ground (arith, fresh, u))
      (IsTold-soon s.pc s.event (i.coming u) open_still
        (λ e. absurd (ground (arith, subst (λ p. is_due p s.revoked ≡ true) e i.due))))

-- Wherever a connection stands, once it is revoked four steps of the endpoint or fewer end it.
pub IsEnded-soon_socket : (s : Socket) → s.revoked ≡ true → Soon s IsEnded
IsEnded-soon_socket s r =
    subst (λ x. Soon x IsEnded)
      {x = record { pc = s.pc; event = s.event; revoked = true; untold = s.untold }} {y = s}
      (ground (arith, r)) (IsEnded-soon s.pc s.event s.untold)

-- Wherever a connection has come to, whatever pokes, revocations and keepalives it has seen: where
-- there is news of which the peer was sent no poke, and it is neither revoked nor ended, four steps
-- of the endpoint or fewer send one.
pub Reach-IsTold :
    {s : Socket} → Reach s → s.pc ≢ ended → s.revoked ≡ false → s.untold ≡ true → Soon s IsTold
Reach-IsTold {s} r = IsTold-soon_socket s (Reach-Inv r)
