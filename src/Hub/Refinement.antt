-- ===== src/Hub/Refinement.antt =====
-- The hub refines what is told of it from the calls alone.
use jeeves.Common.{
  ℕ, ◌≡◌, sym, ap, ◌∙◌, arith, true, false, List, [], ◌∷◌, ◌++◌, ◌==◌, append-nil, Bool-cases, inl,
  inr,
}
use jeeves.Hub.{
  Subscription, SignalHub, holders, notified, change, notify, trip_member, revoke, clear_one, clear,
}
use jeeves.Hub.Dict.{
  IsDict, IsDict-subscribe, IsDict-change, IsDict-unsubscribe, holders-subscribe, holders-change,
  holders-unsubscribe,
}
use jeeves.Hub.Calls.{
  HubCall, subscribe_call, unsubscribe_call, notify_call, revoke_call, clear_call, call, call_all,
  survivor, held,
}
use jeeves.Hub.Survivors.{
  survivors, survivors_now, survivors-map, survivors_same, survivors-discard, survivor-notified,
  survivor-notify_other, survivor-trip_member, survivor-revoke_other, survivor-clear_one,
  survivor-clear_other, survivor-unsubscribe_other, survivors-subscribe, survivor-subscribe,
}

-- A call that changes the subscriptions of one Workspace in place.
survivors-change :
    (w v : ℕ) (c : HubCall) (cs : List HubCall) (f : Subscription → Subscription) (hub : SignalHub)
    → ((v == w) ≡ true → (s : Subscription) → survivor w cs (f s) ≡ survivor w (c ∷ cs) s)
    → ((v == w) ≡ false → (s : Subscription) → survivor w cs s ≡ survivor w (c ∷ cs) s)
    → survivors w cs (holders (change f hub v) w) ≡ survivors w (c ∷ cs) (holders hub w)
survivors-change w v c cs f hub own other = elim (Bool-cases (v == w)) [
  | inl here ↦
      let at_w : v ≡ w = ground arith in
      (rw (holders-change f hub v w)
        (rw here (rw (at_w) (survivors-map w c cs f (holders hub w) (own here)))))
  | inr there ↦
      rw (holders-change f hub v w) (rw there (survivors_same w c cs (holders hub w) (other there)))
]

-- One call, then the others: what was held by then and what is made later.
survivors-call :
    (w : ℕ) (c : HubCall) (cs : List HubCall) (hub : SignalHub)
    → IsDict hub
    → survivors w cs (holders (call c hub) w) ++ held w cs
      ≡ survivors w (c ∷ cs) (holders hub w) ++ held w (c ∷ cs)
unfolding call notify revoke clear held
survivors-call w (subscribe_call v member_id identity) cs hub h = elim (Bool-cases (v == w)) [
  | inl here ↦
      let at_w : v ≡ w = ground arith in
      rw (holders-subscribe hub v member_id identity w) (
        rw here
          (rw (at_w) (survivors-subscribe w w member_id identity cs (holders hub w) (held w cs))))
  | inr there ↦ rw (holders-subscribe hub v member_id identity w) (
      rw there (
        ap (λ xs. xs ++ held w cs)
          (survivors_same w (subscribe_call v member_id identity) cs (holders hub w)
            (survivor-subscribe w v member_id identity cs))))
]
survivors-call w (unsubscribe_call v identity) cs hub h =
    ap (λ xs. xs ++ held w cs)
      (elim (Bool-cases (v == w)) [
        | inl here ↦
            let at_w : v ≡ w = ground arith in
            rw (holders-unsubscribe hub v identity w h) (
              rw here
                (rw (at_w) (survivors-discard w w identity cs (holders hub w) (ground arith))))
        | inr there ↦ rw (holders-unsubscribe hub v identity w h) (
            rw there (
              survivors_same w (unsubscribe_call v identity) cs (holders hub w)
                (λ s. survivor-unsubscribe_other w v identity cs s there)))
      ])
survivors-call w (notify_call v) cs hub h =
    ap (λ xs. xs ++ held w cs)
      (survivors-change w v (notify_call v) cs notified hub
        (λ here s. survivor-notified w v cs s here)
        (λ there s. survivor-notify_other w v cs s there))
survivors-call w (revoke_call v member_id) cs hub h =
    ap (λ xs. xs ++ held w cs)
      (survivors-change w v (revoke_call v member_id) cs (trip_member member_id) hub
        (λ here s. survivor-trip_member w v member_id cs s here)
        (λ there s. survivor-revoke_other w v member_id cs s there))
survivors-call w (clear_call v identity) cs hub h =
    ap (λ xs. xs ++ held w cs)
      (survivors-change w v (clear_call v identity) cs (clear_one identity) hub
        (λ here s. survivor-clear_one w v identity cs s here)
        (λ there s. survivor-clear_other w v identity cs s there))

IsDict-call : (c : HubCall) (hub : SignalHub) → IsDict hub → IsDict (call c hub)
unfolding call notify revoke clear
IsDict-call (subscribe_call v member_id identity) hub h =
    IsDict-subscribe hub v member_id identity h
IsDict-call (unsubscribe_call v identity) hub h = IsDict-unsubscribe hub v identity h
IsDict-call (notify_call v) hub h = IsDict-change notified hub v h
IsDict-call (revoke_call v member_id) hub h = IsDict-change (trip_member member_id) hub v h
IsDict-call (clear_call v identity) hub h = IsDict-change (clear_one identity) hub v h

holders-call_all :
    (w : ℕ) (calls : List HubCall) (hub : SignalHub)
    → IsDict hub
    → holders (call_all calls hub) w ≡ survivors w calls (holders hub w) ++ held w calls
unfolding call_all held
holders-call_all w [] hub h =
    sym (ap (λ xs. xs ++ []) (survivors_now w (holders hub w)) ∙ append-nil (holders hub w))
holders-call_all w (c ∷ cs) hub h =
    holders-call_all w cs (call c hub) (IsDict-call c hub h) ∙ survivors-call w c cs hub h

-- After any calls the hub, which starts empty, holds for each Workspace just the subscriptions that
-- were made to it and not dropped since, in the order in which they were made. One has news where a
-- poke of its Workspace came after it was made and it did not clear since, and is revoked where its
-- Member was revoked from its Workspace after it was made.
pub call_all-Refines : (calls : List HubCall) (w : ℕ) → holders (call_all calls []) w ≡ held w calls
unfolding holders held survivors
call_all-Refines calls w = holders-call_all w calls [] tt
