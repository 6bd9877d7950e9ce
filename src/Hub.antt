-- ===== src/Hub.antt =====
-- backend/app/sync/signal_hub.py: who is subscribed to the news of a Workspace. A subscription is
-- its identity, its Member and its two events; the dict is a list of its entries.
pub mod Dict
pub mod Calls
pub mod Survivors
pub mod Refinement
pub mod Socket
pub mod Delivery
use jeeves.Common.{
  ℕ, suc, Bool, true, false, not, List, [], ◌∷◌, ◌++◌, ◌==◌, length, map, keep_if, if◌then◌else◌,
}

pub record Subscription : Type 0 where
  pub identity : ℕ
  pub member_id : ℕ
  pub event : Bool
  pub revoked : Bool

-- `SignalHub._subscribers`
abbrev pub SignalHub : Type 0
SignalHub = List (ℕ × List Subscription)

-- `self._subscribers.get(workspace_id, ())`
unfoldable pub holders : SignalHub → ℕ → List Subscription
holders [] w = []
holders ((k, subscriptions) ∷ rest) w = if k == w then subscriptions else holders rest w

-- `SignalSubscription.notify`, `.revoke` and `.clear`
abbrev pub notified : Subscription → Subscription
notified s = record s { event = true }

abbrev pub tripped : Subscription → Subscription
tripped s = record s { revoked = true }

abbrev pub cleared : Subscription → Subscription
cleared s = record s { event = false }

abbrev pub new_subscription : ℕ → ℕ → Subscription
new_subscription identity member_id = record {
  identity = identity;
  member_id = member_id;
  event = false;
  revoked = false;
}

-- `subscribe`, of the object that is made
unfoldable pub subscribe : SignalHub → ℕ → ℕ → ℕ → SignalHub
subscribe [] w member_id identity = (w, new_subscription identity member_id ∷ []) ∷ []
subscribe ((k, subscriptions) ∷ rest) w member_id identity =
    let later = subscribe rest w member_id identity in
    if k == w
    then (k, subscriptions ++ new_subscription identity member_id ∷ []) ∷ rest
    else (k, subscriptions) ∷ later

abbrev pub discard : ℕ → List Subscription → List Subscription
discard identity subscriptions =
    keep_if (λ (s : Subscription). not (s.identity == identity)) subscriptions

-- An entry that is left empty is deleted.
abbrev pub put_back : ℕ → List Subscription → SignalHub → SignalHub
put_back k [] rest = rest
put_back k (s ∷ left) rest = (k, s ∷ left) ∷ rest

unfoldable pub unsubscribe : SignalHub → ℕ → ℕ → SignalHub
unsubscribe [] w identity = []
unsubscribe ((k, subscriptions) ∷ rest) w identity =
    let later = unsubscribe rest w identity in
    if k == w then put_back k (discard identity subscriptions) rest else (k, subscriptions) ∷ later

-- Each subscription of a Workspace is changed in place.
unfoldable pub change : (Subscription → Subscription) → SignalHub → ℕ → SignalHub
change f [] w = []
change f ((k, subscriptions) ∷ rest) w =
    let later = change f rest w in
    if k == w then (k, map f subscriptions) ∷ rest else (k, subscriptions) ∷ later

unfoldable pub notify : SignalHub → ℕ → SignalHub
unfolding change
notify hub w = change notified hub w

abbrev pub trip_member : ℕ → Subscription → Subscription
trip_member member_id s = if s.member_id == member_id then tripped s else s

unfoldable pub revoke : SignalHub → ℕ → ℕ → SignalHub
unfolding change
revoke hub w member_id = change (trip_member member_id) hub w

-- What `revoke` returns.
unfoldable pub revoke_count : SignalHub → ℕ → ℕ → ℕ
unfolding holders
revoke_count hub w member_id =
    length (keep_if (λ (s : Subscription). s.member_id == member_id) (holders hub w))

abbrev pub clear_one : ℕ → Subscription → Subscription
clear_one identity s = if s.identity == identity then cleared s else s

unfoldable pub clear : SignalHub → ℕ → ℕ → SignalHub
unfolding change
clear hub w identity = change (clear_one identity) hub w

unfoldable pub subscriber_count : SignalHub → ℕ → ℕ
unfolding holders
subscriber_count hub w = length (holders hub w)
