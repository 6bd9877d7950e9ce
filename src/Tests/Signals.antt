-- ===== src/Tests/Signals.antt =====
-- The hub and a socket at concrete calls.
use jeeves.Common.{◌≡◌, ◌≢◌, refl, arith, true, false, List, [], ◌∷◌}
use jeeves.Hub.{holders, subscriber_count, revoke_count}
use jeeves.Hub.Calls.{
  HubCall, subscribe_call, unsubscribe_call, notify_call, revoke_call, clear_call, call_all, held,
}
use jeeves.Hub.Refinement.{call_all-Refines}
use jeeves.Hub.Socket.{Pc, ended, Socket, poke_sent, news, own, other, Reach, connects, later}
use jeeves.Hub.Delivery.{Soon, IsTold, IsEnded, Reach-IsTold, IsEnded-soon_socket}

-- Two Workspaces; the first is poked, one of its Members is revoked and one leaves.
abbrev calls : List HubCall
calls =
    subscribe_call 7 5 1
    ∷ subscribe_call 7 6 2
    ∷ subscribe_call 8 5 3
    ∷ notify_call 7
    ∷ revoke_call 7 5
    ∷ unsubscribe_call 7 2
    ∷ clear_call 7 1
    ∷ []

call_all-Refines_example : holders (call_all calls []) 7 ≡ held 7 calls
call_all-Refines_example = call_all-Refines calls 7

-- What that is: the Member that was revoked and cleared its news.
held_by_7 :
    held 7 calls ≡ record { identity = 1; member_id = 5; event = false; revoked = true } ∷ []
unfolding held
held_by_7 = refl

one_holder : subscriber_count (call_all calls []) 7 ≡ 1
unfolding subscriber_count call_all
one_holder = refl

one_tripped : revoke_count (call_all calls []) 7 5 ≡ 1
unfolding revoke_count call_all
one_tripped = refl

abbrev with_news : Socket
with_news = record { pc = Pc.waiting; event = true; revoked = false; untold = true }

with_news-Reach : Reach with_news
with_news-Reach = later (later connects (own (poke_sent refl))) (other news)

waiting-not_ended : with_news.pc ≢ ended
waiting-not_ended h = ground arith

Reach-IsTold_example : Soon with_news IsTold
Reach-IsTold_example = Reach-IsTold with_news-Reach waiting-not_ended refl refl

abbrev with_revocation : Socket
with_revocation = record with_news { revoked = true }

IsEnded-soon_socket_example : Soon with_revocation IsEnded
IsEnded-soon_socket_example = IsEnded-soon_socket with_revocation refl
