-- ===== src/Bybit/WebSocket/Covered.antt =====
-- What a synchronization asks for, and what an acknowledgement confirms.
use bybit_crypto_monitor_tel.Base.{
  ◌&&◌, ℕ, zero, suc, ◌+◌, ◌≤◌, ◌≡◌, refl, sym, ◌∙◌, ap, Bool, true, false, not, none, some, String,
  List, [], ◌∷◌, ◌++◌, ◌==◌, String_eq, ℕ_eq, elem, drop, length, if◌then◌else◌, arith,
  take-append-drop, length-take, Bool-cases, inl, inr, nat_eq, All, length-drop,
}
use bybit_crypto_monitor_tel.Base.Dict.{Dict, get, set, get-set}
use bybit_crypto_monitor_tel.Config.{Settings}
use bybit_crypto_monitor_tel.Bybit.WebSocket.{
  Client, PendingSubscription, batches, symbols_of, pending_symbols, minus, missing_symbols,
  is_empty, add_pending, send_subscribe, resubscribe,
}
use bybit_crypto_monitor_tel.Bybit.WebSocket.Exclusive.{uses}
use bybit_crypto_monitor_tel.Bybit.WebSocket.Times.{
  times, times-append, times-sorted, times-minus, elem-times, total,
}

-- The batches in order are the whole list, and none is larger than the limit or empty.
abbrev pub joined : List (List String) → List String
joined [] = []
joined (b ∷ bs) = b ++ joined bs

-- With a batch size of at least one, and as much fuel as symbols, the batches in order are the
-- whole list, and each of them has at least one symbol and at most the size of a batch.
pub batches_lem :
    (fuel size : ℕ) (xs : List String)
    → 1 ≤ size
    → length xs ≤ fuel
    → (joined (batches fuel size xs) ≡ xs)
      × All (λ b. (1 ≤ length b) × (length b ≤ size)) (batches fuel size xs)
unfolding batches
batches_lem zero size [] h k = (refl, tt)
batches_lem zero size (x ∷ xs) h k = let impossible : ⊥ = omega (arith, k) in absurd impossible
batches_lem (suc fuel) size [] h k = (refl, tt)
batches_lem (suc fuel) (suc size) (x ∷ xs) h k =
    let (whole, sized) =
      batches_lem fuel (suc size) (drop size xs) h (omega (arith, k, length-drop size xs)) in
    (
      rw whole (ap (◌∷◌ x) (take-append-drop size xs)),
      ((omega arith, omega (arith, length-take size xs)), sized),
    )
batches_lem (suc fuel) zero (x ∷ xs) h k =
    let impossible : ⊥ = omega (arith, h) in absurd impossible

total-joined : (s : String) (bs : List (List String)) → total s bs ≡ times s (joined bs)
total-joined s [] = refl
total-joined s (b ∷ bs) = omega (arith, times-append s b (joined bs), total-joined s bs)

-- The ids after the last one given are free.
abbrev pub IsFresh : Client → Type 0
IsFresh c = (n : ℕ) → suc c.sequence ≤ n → get n c.pending_subscriptions ≡ none

times-set-fresh :
    (s : String) (id : ℕ) (p : PendingSubscription) (d : Dict ℕ PendingSubscription)
    → get id d ≡ none
    → times s (symbols_of (set id p d)) ≡ times s (symbols_of d) + times s p.symbols
unfolding symbols_of set get
times-set-fresh s id p [] h = omega (arith, times-append s p.symbols [])
times-set-fresh s id p ((j, q) ∷ d) h = elim (Bool-cases (j == id)) [
  | inl same ↦ cc (ap (λ b. if b then some q else get id d) same, h)
  | inr differs ↦
      let later : get id d ≡ none = sym (ap (λ b. if b then some q else get id d) differs) ∙ h in
      rw differs (
        omega (
          arith,
          times-append s q.symbols (symbols_of (set id p d)),
          times-append s q.symbols (symbols_of d),
          times-set-fresh s id p d later,
        ))
]

pub add_pending-IsFresh :
    (now : ℕ) (batch : List String) (c : Client) → IsFresh c → IsFresh (add_pending now batch c)
add_pending-IsFresh now batch c h n above =
    let p : PendingSubscription = record { symbols = batch; sent_at = now } in
    let differs : nat_eq (suc c.sequence) n ≡ false = ground (arith, above) in
    get-set (suc c.sequence) n p c.pending_subscriptions ∙ rw differs (h n (omega (arith, above)))

pub send_subscribe-requests :
    (sends : ℕ → Bool) (clock : ℕ → ℕ) (bs : List (List String)) (c : Client)
    → ((n : ℕ) → sends n ≡ true)
    → IsFresh c
    → let (after, raised) = send_subscribe sends clock bs c in
      (raised ≡ false)
      × (after.subscribed ≡ c.subscribed)
      × ((s : String) → times s (pending_symbols after) ≡ times s (pending_symbols c) + total s bs)
unfolding send_subscribe
send_subscribe-requests sends clock [] c ok h = (refl, refl, λ s. omega arith)
send_subscribe-requests sends clock (batch ∷ rest) c ok h =
    let id = suc c.sequence in
    let added = add_pending (clock id) batch c in
    let p : PendingSubscription = record { symbols = batch; sent_at = clock id } in
    let (calm, same, counted) =
      send_subscribe-requests sends clock rest added ok
        (add_pending-IsFresh (clock id) batch c h) in
    rw (ok id) (
      calm,
      same,
      λ s.
          omega
            (arith, counted s, times-set-fresh s id p c.pending_subscriptions (h id (omega arith))),
    )

missing-there :
    (c : Client) (s : String)
    → elem s c.desired_symbols ≡ true
    → 1 ≤ times s (missing_symbols c) + uses s c
missing-there c s h =
    let waiting = minus c.desired_symbols c.subscribed in
    ground (
      arith,
      h,
      times-sorted s (minus waiting (pending_symbols c)),
      times-minus s waiting (pending_symbols c),
      times-minus s c.desired_symbols c.subscribed,
      elem-times s (pending_symbols c),
      elem-times s c.subscribed,
      elem-times s c.desired_symbols,
    )

pub unguarded :
    (P : Client × Bool → Type 0) (c : Client) (early wrong : Bool) (r : Client × Bool)
    → early ≡ false
    → wrong ≡ false
    → P r
    → P (if early then (c, false) else if wrong then (c, true) else r)
unguarded P c true wrong r e w h = cc
unguarded P c false true r e w h = cc
unguarded P c false false r e w h = h

module _ (config : Settings) (sends : ℕ → Bool) (clock : ℕ → ℕ) (c : Client) where
  -- If the socket is there and takes every request, batches hold at least one symbol, and the ids
  -- to come are free, then a synchronization leaves every wanted symbol confirmed or requested,
  -- and it confirms nothing itself.
  pub resubscribe-covers :
      c.has_socket ≡ true
      → 1 ≤ config.ws_subscribe_batch_size
      → ((n : ℕ) → sends n ≡ true)
      → IsFresh c
      → let (after, raised) = resubscribe config sends clock c in
        (raised ≡ false)
        × (after.subscribed ≡ c.subscribed)
        × ((s : String) → elem s c.desired_symbols ≡ true → 1 ≤ uses s after)
  unfolding resubscribe
  resubscribe-covers socket size ok h =
      let missing = missing_symbols c in
      let bs = batches (length missing) config.ws_subscribe_batch_size missing in
      let (calm, same, counted) = send_subscribe-requests sends clock bs c ok h in
      let whole =
        (batches_lem (length missing) config.ws_subscribe_batch_size missing size
          (omega arith)).0 in
      unguarded
        (λ r.
          (r.1 ≡ false)
          × (r.0.subscribed ≡ c.subscribed)
          × ((s : String) → elem s c.desired_symbols ≡ true → 1 ≤ uses s r.0))
        c (not c.has_socket) (nat_eq config.ws_subscribe_batch_size 0 && not (is_empty missing))
        (send_subscribe sends clock bs c) (ap not socket) (ground (arith, size))
        (
          calm,
          same,
          λ s wanted. omega (
            arith,
            counted s,
            total-joined s bs,
            ap (times s) whole,
            ap (times s) same,
            missing-there c s wanted,
          ),
        )
