-- ===== src/Hub/Survivors.antt =====
-- What one call does to the subscriptions that were made before it.
use jeeves.Common.{
  ℕ, ◌≡◌, refl, sym, ap, ap₂, ◌∙◌, Bool, true, false, ◌||◌, List, [], ◌∷◌, ◌++◌, ◌==◌, any, map,
  append_assoc, append-nil, Bool-cases, inl, inr,
}
use jeeves.Hub.{Subscription, new_subscription, notified, discard, trip_member, clear_one}
use jeeves.Hub.Calls.{
  HubCall, subscribe_call, unsubscribe_call, notify_call, revoke_call, clear_call, drops, revokes,
  has_news_after, survivor,
}

unfoldable pub survivors : ℕ → List HubCall → List Subscription → List Subscription
survivors w cs [] = []
survivors w cs (s ∷ ss) = survivor w cs s ++ survivors w cs ss

pub survivors_now : (w : ℕ) (ss : List Subscription) → survivors w [] ss ≡ ss
unfolding survivors survivor has_news_after
survivors_now w [] = refl
survivors_now w (s ∷ ss) = ap (λ xs. s ∷ xs) (survivors_now w ss)

survivors-append :
    (w : ℕ) (cs : List HubCall) (xs ys : List Subscription)
    → survivors w cs (xs ++ ys) ≡ survivors w cs xs ++ survivors w cs ys
unfolding survivors
survivors-append w cs [] ys = refl
survivors-append w cs (x ∷ xs) ys =
    ap (λ zs. survivor w cs x ++ zs) (survivors-append w cs xs ys)
    ∙ sym (append_assoc (survivor w cs x) (survivors w cs xs) (survivors w cs ys))

-- A call that changes each subscription by itself.
pub survivors-map :
    (w : ℕ) (c : HubCall) (cs : List HubCall) (f : Subscription → Subscription)
    (ss : List Subscription)
    → ((s : Subscription) → survivor w cs (f s) ≡ survivor w (c ∷ cs) s)
    → survivors w cs (map f ss) ≡ survivors w (c ∷ cs) ss
unfolding survivors
survivors-map w c cs f [] each = refl
survivors-map w c cs f (s ∷ ss) each =
    ap₂ (λ xs ys. xs ++ ys) (each s) (survivors-map w c cs f ss each)

-- A call that does not concern the Workspace.
pub survivors_same :
    (w : ℕ) (c : HubCall) (cs : List HubCall) (ss : List Subscription)
    → ((s : Subscription) → survivor w cs s ≡ survivor w (c ∷ cs) s)
    → survivors w cs ss ≡ survivors w (c ∷ cs) ss
unfolding survivors
survivors_same w c cs [] each = refl
survivors_same w c cs (s ∷ ss) each =
    ap₂ (λ xs ys. xs ++ ys) (each s) (survivors_same w c cs ss each)

pub survivors-discard :
    (w v identity : ℕ) (cs : List HubCall) (ss : List Subscription)
    → (v == w) ≡ true
    → survivors w cs (discard identity ss) ≡ survivors w (unsubscribe_call v identity ∷ cs) ss
unfolding survivors survivor drops revokes has_news_after
survivors-discard w v identity cs [] here = refl
survivors-discard w v identity cs (s ∷ ss) here = elim (Bool-cases (s.identity == identity)) [
  | inl own ↦ rw (own) (rw (here) (survivors-discard w v identity cs ss here))
  | inr other ↦
      rw (other)
        (rw (here) (ap (λ xs. survivor w cs s ++ xs) (survivors-discard w v identity cs ss here)))
]

or_true : (b : Bool) → (b || true) ≡ true
or_true false = refl
or_true true = refl

pub survivor-notified :
    (w v : ℕ) (cs : List HubCall) (s : Subscription)
    → (v == w) ≡ true
    → survivor w cs (notified s) ≡ survivor w (notify_call v ∷ cs) s
unfolding survivor drops revokes has_news_after
survivor-notified w v cs s here = rw here refl

pub survivor-notify_other :
    (w v : ℕ) (cs : List HubCall) (s : Subscription)
    → (v == w) ≡ false
    → survivor w cs s ≡ survivor w (notify_call v ∷ cs) s
unfolding survivor drops revokes has_news_after
survivor-notify_other w v cs s there = rw there refl

pub survivor-trip_member :
    (w v member_id : ℕ) (cs : List HubCall) (s : Subscription)
    → (v == w) ≡ true
    → survivor w cs (trip_member member_id s) ≡ survivor w (revoke_call v member_id ∷ cs) s
unfolding survivor drops revokes has_news_after
survivor-trip_member w v member_id cs s here = elim (Bool-cases (s.member_id == member_id)) [
  | inl mine ↦ rw (here, mine, or_true (any (revokes w s.member_id) cs)) refl
  | inr foreign ↦ rw (here, foreign) refl
]

pub survivor-revoke_other :
    (w v member_id : ℕ) (cs : List HubCall) (s : Subscription)
    → (v == w) ≡ false
    → survivor w cs s ≡ survivor w (revoke_call v member_id ∷ cs) s
unfolding survivor drops revokes has_news_after
survivor-revoke_other w v member_id cs s there = rw there refl

pub survivor-clear_one :
    (w v identity : ℕ) (cs : List HubCall) (s : Subscription)
    → (v == w) ≡ true
    → survivor w cs (clear_one identity s) ≡ survivor w (clear_call v identity ∷ cs) s
unfolding survivor drops revokes has_news_after
survivor-clear_one w v identity cs s here = elim (Bool-cases (s.identity == identity)) [
  | inl own ↦ rw (here, own) refl
  | inr other ↦ rw (here, other) refl
]

pub survivor-clear_other :
    (w v identity : ℕ) (cs : List HubCall) (s : Subscription)
    → (v == w) ≡ false
    → survivor w cs s ≡ survivor w (clear_call v identity ∷ cs) s
unfolding survivor drops revokes has_news_after
survivor-clear_other w v identity cs s there = rw there refl

pub survivor-subscribe :
    (w v member_id identity : ℕ) (cs : List HubCall) (s : Subscription)
    → survivor w cs s ≡ survivor w (subscribe_call v member_id identity ∷ cs) s
unfolding survivor drops revokes has_news_after
survivor-subscribe w v member_id identity cs s = refl

pub survivors-subscribe :
    (w v member_id identity : ℕ) (cs : List HubCall) (ss later : List Subscription)
    → survivors w cs (ss ++ new_subscription identity member_id ∷ []) ++ later
      ≡ survivors w (subscribe_call v member_id identity ∷ cs) ss
        ++ (survivor w cs (new_subscription identity member_id) ++ later)
unfolding survivors
survivors-subscribe w v member_id identity cs ss later =
    let made = survivor w cs (new_subscription identity member_id) in
    ap (λ xs. xs ++ later)
      (survivors-append w cs ss (new_subscription identity member_id ∷ [])
        ∙ ap₂ (λ xs ys. xs ++ ys)
            (survivors_same w (subscribe_call v member_id identity) cs ss
              (survivor-subscribe w v member_id identity cs))
            (append-nil made))
    ∙ append_assoc (survivors w (subscribe_call v member_id identity ∷ cs) ss) made later

pub survivor-unsubscribe_other :
    (w v identity : ℕ) (cs : List HubCall) (s : Subscription)
    → (v == w) ≡ false
    → survivor w cs s ≡ survivor w (unsubscribe_call v identity ∷ cs) s
unfolding survivor drops revokes has_news_after
survivor-unsubscribe_other w v identity cs s there = rw there refl
