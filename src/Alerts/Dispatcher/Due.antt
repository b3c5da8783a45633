-- ===== src/Alerts/Dispatcher/Due.antt =====
-- Which rows a cycle expires and which it may attempt, in the words of the two statements.
use bybit_crypto_monitor_tel.Base.{
  ℕ, ◌+◌, ◌≤◌, ◌<◌, ◌≡◌, ◌≢◌, ◌⊎◌, ◌↔◌, inl, inr, refl, ap, Bool, true, false, ◌&&◌, ◌||◌, not,
  Option, none, some, String, String_eq, some_eq, get_or, text_eq_iff, arith,
}
use bybit_crypto_monitor_tel.Persistence.Tables.{
  Notification, DeliveryStatus, pending, retry, sent, dead,
}
use bybit_crypto_monitor_tel.Persistence.Outbox.{
  is_open, may_attempt, is_due, is_listing, is_older, is_expired,
}

-- `status IN ('pending', 'retry')`
abbrev pub IsOpen : DeliveryStatus → Type 0
IsOpen status = (status ≡ pending) ⊎ (status ≡ retry)

-- No time is set, or it has come.
abbrev HasCome : ℕ → Option ℕ → Type 0
HasCome now time = (time ≡ none) ⊎ ((t : ℕ) × (time ≡ some t) × (t ≤ now))

abbrev pub IsDue : ℕ → Notification → Type 0
IsDue now n = IsOpen n.status × HasCome now n.next_attempt_at

-- An open row that was created longer ago than rows of its origin are kept.
abbrev pub IsOld : ℕ → ℕ → ℕ → Notification → Type 0
IsOld alert_age listing_age now n =
    IsOpen n.status
    × (((n.origin_type ≡ some "listing") × (n.created_at + listing_age < now))
        ⊎ ((n.origin_type ≢ some "listing") × (n.created_at + alert_age < now)))

is_open_iff : (s : DeliveryStatus) → (is_open s ≡ true) ↔ IsOpen s
is_open_iff pending = (λ h. inl refl, λ h. refl)
is_open_iff retry = (λ h. inr refl, λ h. refl)
is_open_iff sent = (λ h. cc, λ h. elim h [ inl e ↦ cc e | inr e ↦ cc e ])
is_open_iff dead = (λ h. cc, λ h. elim h [ inl e ↦ cc e | inr e ↦ cc e ])

may_attempt_iff : (now : ℕ) (time : Option ℕ) → (may_attempt time now ≡ true) ↔ HasCome now time
may_attempt_iff now none = (λ h. inl refl, λ h. refl)
may_attempt_iff now (some t) = (
  λ h. inr (t, refl, ground (arith, h)),
  λ h. elim h [
    | inl e ↦ cc e
    | inr (s, e, below) ↦ let same : t ≡ s = ap (λ o. get_or o 0) e in ground (arith, same, below)
  ],
)

and_iff :
    {P Q : Type 0} (b c : Bool) → ((b ≡ true) ↔ P) → ((c ≡ true) ↔ Q) → ((b && c) ≡ true) ↔ (P × Q)
and_iff true c p q = (λ h. (p.0 refl, q.0 h), λ h. q.1 h.1)
and_iff false c p q = (λ h. cc, λ h. p.1 h.0)

or_iff :
    {P Q : Type 0} (b c : Bool) → ((b ≡ true) ↔ P) → ((c ≡ true) ↔ Q) → ((b || c) ≡ true) ↔ (P ⊎ Q)
or_iff true c p q = (λ h. inl (p.0 refl), λ h. refl)
or_iff false c p q = (λ h. inr (q.0 h), λ h. elim h [ inl x ↦ cc (p.1 x) | inr y ↦ q.1 y ])

not_iff : {P : Type 0} (b : Bool) → ((b ≡ true) ↔ P) → (not b ≡ true) ↔ (P → ⊥)
not_iff true p = (λ h. cc, λ h. absurd (h (p.0 refl)))
not_iff false p = (λ h x. cc (p.1 x), λ h. refl)

some_eq_iff : (o : Option String) (s : String) → (some_eq o s ≡ true) ↔ (o ≡ some s)
some_eq_iff none s = (λ h. cc, λ h. cc)
some_eq_iff (some r) s =
    (λ h. ap some ((text_eq_iff r s).0 h), λ h. (text_eq_iff r s).1 (ap (λ o. get_or o "") h))

older_iff : (created now age : ℕ) → (is_older created now age ≡ true) ↔ (created + age < now)
older_iff created now age = (λ h. ground (arith, h), λ h. ground (arith, h))

is_due_iff : (now : ℕ) (n : Notification) → (is_due now n ≡ true) ↔ IsDue now n
is_due_iff now n =
    and_iff (is_open n.status) (may_attempt n.next_attempt_at now) (is_open_iff n.status)
      (may_attempt_iff now n.next_attempt_at)

is_expired_iff :
    (alert_age listing_age now : ℕ) (n : Notification)
    → (is_expired alert_age listing_age now n ≡ true) ↔ IsOld alert_age listing_age now n
is_expired_iff alert_age listing_age now n =
    let listing = some_eq_iff n.origin_type "listing" in
    and_iff (is_open n.status) _ (is_open_iff n.status) (
      or_iff _ _ (and_iff (is_listing n) _ listing (older_iff n.created_at now listing_age)) (
        and_iff (not (is_listing n)) _ (not_iff (is_listing n) listing)
          (older_iff n.created_at now alert_age)))

false_iff : {P : Type 0} (b : Bool) → ((b ≡ true) ↔ P) → (P → ⊥) → b ≡ false
false_iff true p h = absurd (h (p.0 refl))
false_iff false p h = refl

-- A test that decides a proposition.
decided_by : {P : Type 0} (b : Bool) → ((b ≡ true) ↔ P) → (P × (b ≡ true)) ⊎ ((P → ⊥) × (b ≡ false))
decided_by true p = inl (p.0 refl, refl)
decided_by false p = inr (λ x. cc (p.1 x), refl)

module _ (now : ℕ) (n : Notification) where
  pub IsDue-cases :
      (IsDue now n × (is_due now n ≡ true)) ⊎ ((IsDue now n → ⊥) × (is_due now n ≡ false))
  IsDue-cases = decided_by (is_due now n) (is_due_iff now n)

  pub due : IsDue now n → is_due now n ≡ true
  due = (is_due_iff now n).1

  module _ (alert_age listing_age : ℕ) where
    pub IsOld-cases :
        (IsOld alert_age listing_age now n × (is_expired alert_age listing_age now n ≡ true))
        ⊎ ((IsOld alert_age listing_age now n → ⊥)
            × (is_expired alert_age listing_age now n ≡ false))
    IsOld-cases =
        decided_by (is_expired alert_age listing_age now n)
          (is_expired_iff alert_age listing_age now n)

    pub old : IsOld alert_age listing_age now n → is_expired alert_age listing_age now n ≡ true
    old = (is_expired_iff alert_age listing_age now n).1

    pub not_old :
        (IsOld alert_age listing_age now n → ⊥) → is_expired alert_age listing_age now n ≡ false
    not_old = false_iff _ (is_expired_iff alert_age listing_age now n)
