-- ===== src/Hub/Calls.antt =====
-- The calls on the hub, and what its clients may rely on, told from the calls alone.
use jeeves.Common.{ℕ, Bool, true, false, ◌&&◌, ◌||◌, List, [], ◌∷◌, ◌++◌, ◌==◌, any, if◌then◌else◌}
use jeeves.Hub.{Subscription, SignalHub, subscribe, unsubscribe, notify, revoke, clear}

-- One call on the hub. `clear` is the subscription's own.
pub data HubCall : Type 0 where
  subscribe_call : (w member_id identity : ℕ) → HubCall
  unsubscribe_call : (w identity : ℕ) → HubCall
  notify_call : (w : ℕ) → HubCall
  revoke_call : (w member_id : ℕ) → HubCall
  clear_call : (w identity : ℕ) → HubCall

unfoldable pub call : HubCall → SignalHub → SignalHub
unfolding subscribe unsubscribe notify revoke clear
call (subscribe_call w member_id identity) hub = subscribe hub w member_id identity
call (unsubscribe_call w identity) hub = unsubscribe hub w identity
call (notify_call w) hub = notify hub w
call (revoke_call w member_id) hub = revoke hub w member_id
call (clear_call w identity) hub = clear hub w identity

unfoldable pub call_all : List HubCall → SignalHub → SignalHub
unfolding call
call_all [] hub = hub
call_all (c ∷ cs) hub = call_all cs (call c hub)

-- What a client may rely on, told from the calls alone. Behind each call that made a subscription
-- stand the calls that follow it.
unfoldable pub drops : ℕ → ℕ → HubCall → Bool
drops w identity (unsubscribe_call v i) = v == w && identity == i
drops w identity c = false

unfoldable pub revokes : ℕ → ℕ → HubCall → Bool
revokes w member_id (revoke_call v m) = v == w && member_id == m
revokes w member_id c = false

-- Whether there is news: a poke of the Workspace that the subscription did not clear since.
unfoldable pub has_news_after : ℕ → ℕ → Bool → List HubCall → Bool
has_news_after w identity news [] = news
has_news_after w identity news (notify_call v ∷ cs) =
    has_news_after w identity (if v == w then true else news) cs
has_news_after w identity news (clear_call v i ∷ cs) =
    has_news_after w identity (if v == w && identity == i then false else news) cs
has_news_after w identity news (subscribe_call v m i ∷ cs) = has_news_after w identity news cs
has_news_after w identity news (unsubscribe_call v i ∷ cs) = has_news_after w identity news cs
has_news_after w identity news (revoke_call v m ∷ cs) = has_news_after w identity news cs

-- What is left of a subscription to `w` behind some calls: nothing once it was dropped, else itself
-- with its news, revoked where its Member was.
unfoldable pub survivor : ℕ → List HubCall → Subscription → List Subscription
unfolding drops revokes has_news_after
survivor w cs s =
    if any (drops w s.identity) cs
    then []
    else record {
      identity = s.identity;
      member_id = s.member_id;
      event = has_news_after w s.identity s.event cs;
      revoked = any (revokes w s.member_id) cs || s.revoked;
    }
      ∷ []

-- The subscriptions to `w`, in the order in which they were made.
unfoldable pub held : ℕ → List HubCall → List Subscription
unfolding survivor
held w [] = []
held w (subscribe_call v member_id identity ∷ cs) =
    (if v == w
      then survivor w cs
          (record { identity = identity; member_id = member_id; event = false; revoked = false })
      else [])
    ++ held w cs
held w (unsubscribe_call v identity ∷ cs) = held w cs
held w (notify_call v ∷ cs) = held w cs
held w (revoke_call v member_id ∷ cs) = held w cs
held w (clear_call v identity ∷ cs) = held w cs
