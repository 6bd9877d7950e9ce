-- ===== src/Hub/Dict.antt =====
-- The dict of the hub: its keys stay distinct, and what each operation does to a look-up.
use jeeves.Common.{
  ℕ, ◌≡◌, refl, arith, Bool, false, ◌||◌, List, [], ◌∷◌, ◌++◌, ◌==◌, any, map, if◌then◌else◌,
  Bool-cases, inl, inr,
}
use jeeves.Hub.{
  Subscription, SignalHub, put_back, holders, new_subscription, discard, subscribe, unsubscribe,
  change,
}

abbrev has_entry : SignalHub → ℕ → Bool
has_entry hub w = any (λ (e : ℕ × List Subscription). e.0 == w) hub

-- The keys of a dict are distinct.
abbrev pub IsDict : SignalHub → Type 0
IsDict [] = Unit
IsDict ((k, subscriptions) ∷ rest) = (has_entry rest k ≡ false) × IsDict rest

holders_missing : (hub : SignalHub) (w : ℕ) → has_entry hub w ≡ false → holders hub w ≡ []
unfolding holders
holders_missing [] w h = refl
holders_missing ((k, subscriptions) ∷ rest) w h = ground (arith, holders_missing rest w)

has_entry-subscribe :
    (hub : SignalHub) (w member_id identity k : ℕ)
    → has_entry (subscribe hub w member_id identity) k ≡ (has_entry hub k || (w == k))
unfolding subscribe
has_entry-subscribe [] w member_id identity k = ground arith
has_entry-subscribe ((j, subscriptions) ∷ rest) w member_id identity k =
    ground (arith, has_entry-subscribe rest w member_id identity k)

has_entry-change :
    (f : Subscription → Subscription) (hub : SignalHub) (w k : ℕ)
    → has_entry (change f hub w) k ≡ has_entry hub k
unfolding change
has_entry-change f [] w k = refl
has_entry-change f ((j, subscriptions) ∷ rest) w k = ground (arith, has_entry-change f rest w k)

pub IsDict-subscribe :
    (hub : SignalHub) (w member_id identity : ℕ)
    → IsDict hub
    → IsDict (subscribe hub w member_id identity)
unfolding subscribe
IsDict-subscribe [] w member_id identity h = (refl, tt)
IsDict-subscribe ((k, subscriptions) ∷ rest) w member_id identity h = elim (Bool-cases (k == w)) [
  | inl here ↦ rw here h
  | inr there ↦ rw there (
    ground (arith, has_entry-subscribe rest w member_id identity k),
    IsDict-subscribe rest w member_id identity h.1,
  )
]

pub IsDict-change :
    (f : Subscription → Subscription) (hub : SignalHub) (w : ℕ)
    → IsDict hub
    → IsDict (change f hub w)
unfolding change
IsDict-change f [] w h = tt
IsDict-change f ((k, subscriptions) ∷ rest) w h = elim (Bool-cases (k == w)) [
  | inl here ↦ rw here h
  | inr there ↦ rw there (ground (arith, has_entry-change f rest w k), IsDict-change f rest w h.1)
]

has_entry-put_back :
    (k j : ℕ) (left : List Subscription) (rest : SignalHub)
    → has_entry rest j ≡ false
    → (k == j) ≡ false
    → has_entry (put_back k left rest) j ≡ false
has_entry-put_back k j [] rest h d = h
has_entry-put_back k j (s ∷ left) rest h d = ground arith

has_entry-unsubscribe :
    (hub : SignalHub) (w identity j : ℕ)
    → has_entry hub j ≡ false
    → has_entry (unsubscribe hub w identity) j ≡ false
unfolding unsubscribe
has_entry-unsubscribe [] w identity j h = refl
has_entry-unsubscribe ((k, subscriptions) ∷ rest) w identity j h = elim (Bool-cases (k == w)) [
  | inl here ↦
      rw here
        (has_entry-put_back k j (discard identity subscriptions) rest (ground arith) (ground arith))
  | inr there ↦ rw there (ground (arith, has_entry-unsubscribe rest w identity j (ground arith)))
]

IsDict-put_back :
    (k : ℕ) (left : List Subscription) (rest : SignalHub)
    → has_entry rest k ≡ false
    → IsDict rest
    → IsDict (put_back k left rest)
IsDict-put_back k [] rest h d = d
IsDict-put_back k (s ∷ left) rest h d = (h, d)

pub IsDict-unsubscribe :
    (hub : SignalHub) (w identity : ℕ) → IsDict hub → IsDict (unsubscribe hub w identity)
unfolding unsubscribe
IsDict-unsubscribe [] w identity h = tt
IsDict-unsubscribe ((k, subscriptions) ∷ rest) w identity h = elim (Bool-cases (k == w)) [
  | inl here ↦ rw here (IsDict-put_back k (discard identity subscriptions) rest h.0 h.1)
  | inr there ↦
      rw there (has_entry-unsubscribe rest w identity k h.0, IsDict-unsubscribe rest w identity h.1)
]

pub holders-subscribe :
    (hub : SignalHub) (w member_id identity other : ℕ)
    → holders (subscribe hub w member_id identity) other ≡ (
        if w == other
        then holders hub w ++ new_subscription identity member_id ∷ []
        else holders hub other)
unfolding subscribe holders
holders-subscribe [] w member_id identity other = ground arith
holders-subscribe ((k, subscriptions) ∷ rest) w member_id identity other =
    ground (arith, holders-subscribe rest w member_id identity other)

pub holders-change :
    (f : Subscription → Subscription) (hub : SignalHub) (w other : ℕ)
    → holders (change f hub w) other
      ≡ (if w == other then map f (holders hub w) else holders hub other)
unfolding change holders
holders-change f [] w other = ground arith
holders-change f ((k, subscriptions) ∷ rest) w other = ground (arith, holders-change f rest w other)

holders-put_back :
    (k : ℕ) (left : List Subscription) (rest : SignalHub) (other : ℕ)
    → has_entry rest k ≡ false
    → holders (put_back k left rest) other ≡ (if k == other then left else holders rest other)
unfolding holders
holders-put_back k [] rest other h = ground (arith, holders_missing rest k h)
holders-put_back k (s ∷ left) rest other h = refl

pub holders-unsubscribe :
    (hub : SignalHub) (w identity other : ℕ)
    → IsDict hub
    → holders (unsubscribe hub w identity) other
      ≡ (if w == other then discard identity (holders hub w) else holders hub other)
unfolding unsubscribe holders
holders-unsubscribe [] w identity other h = ground arith
holders-unsubscribe ((k, subscriptions) ∷ rest) w identity other h = ground (
  arith,
  holders-unsubscribe rest w identity other h.1,
  holders-put_back k (discard identity subscriptions) rest other h.0,
)
