-- ===== src/Bybit/WebSocket/Dropped.antt =====
-- What app/bybit/websocket.py: unsubscribe leaves confirmed.
use bybit_crypto_monitor_tel.Base.{
  ◌&&◌, ℕ, suc, ◌≤◌, ◌≡◌, refl, sym, ap, ◌∙◌, Bool, true, false, not, String, List, [], ◌∷◌,
  String_eq, elem, length, arith, nat_eq, elem-keep, elem-append,
}
use bybit_crypto_monitor_tel.Base.Sort.{sorted}
use bybit_crypto_monitor_tel.Base.TextOrder.{text_leb}
use bybit_crypto_monitor_tel.Config.{Settings}
use bybit_crypto_monitor_tel.Bybit.WebSocket.{
  Client, union, common, minus, is_empty, pending_symbols, add_pending, send_subscribe,
  send_unsubscribe, resubscribe, unsubscribe,
}
use bybit_crypto_monitor_tel.Bybit.WebSocket.Confirmed.{elem-union}
use bybit_crypto_monitor_tel.Bybit.WebSocket.Calls.{
  resubscribe_cases, missing_batches, stale_symbols, stale_batches,
}
use bybit_crypto_monitor_tel.Bybit.WebSocket.Times.{times-sorted, elem-times}
use bybit_crypto_monitor_tel.Bybit.WebSocket.Covered.{joined, batches_lem, unguarded}

-- What unsubscribing from some symbols does to a client, when all goes well.
abbrev pub Drops : (String → Bool) → Client → Client × Bool → Type 0
Drops gone c (after, wrong) =
    (wrong ≡ false)
    × (after.desired_symbols ≡ c.desired_symbols)
    × (pending_symbols after ≡ pending_symbols c)
    × ((s : String) → elem s after.subscribed ≡ (elem s c.subscribed && not (gone s)))

send_unsubscribe-Drops :
    (sends : ℕ → Bool) (bs : List (List String)) (c : Client)
    → ((n : ℕ) → sends n ≡ true)
    → Drops (λ s. elem s (joined bs)) c (send_unsubscribe sends bs c)
unfolding send_unsubscribe
send_unsubscribe-Drops sends [] c h = (refl, refl, refl, λ s. ground arith)
send_unsubscribe-Drops sends (batch ∷ rest) c h =
    let taken : Client = record c { subscribed = minus c.subscribed batch } in
    let (calm, same, waits, left) = send_unsubscribe-Drops sends rest taken h in
    rw (h (length rest)) (
      calm,
      same,
      waits,
      λ s. ground (
        arith,
        left s,
        elem-keep (λ x. not (elem x batch)) s c.subscribed,
        elem-append s batch (joined rest),
      ),
    )

elem-sorted : (s : String) (xs : List String) → elem s (sorted text_leb xs) ≡ elem s xs
elem-sorted s xs =
    elem-times s (sorted text_leb xs) ∙ rw (times-sorted s xs) (sym (elem-times s xs))

-- If the socket is there and takes every request, exactly the symbols given are confirmed no more.
pub unsubscribe-Drops :
    (config : Settings) (sends : ℕ → Bool) (symbols : List String) (c : Client)
    → c.has_socket ≡ true
    → 1 ≤ config.ws_subscribe_batch_size
    → ((n : ℕ) → sends n ≡ true)
    → Drops (λ s. elem s symbols) c (unsubscribe config sends symbols c)
unfolding unsubscribe
unsubscribe-Drops config sends symbols c socket size h =
    let stale = stale_symbols symbols c in
    let bs = stale_batches config symbols c in
    let (calm, same, waits, left) = send_unsubscribe-Drops sends bs c h in
    let whole =
      (batches_lem (length stale) config.ws_subscribe_batch_size stale size (omega arith)).0 in
    unguarded (Drops (λ s. elem s symbols) c) c (not c.has_socket)
      (nat_eq config.ws_subscribe_batch_size 0 && not (is_empty stale))
      (send_unsubscribe sends bs c) (ap not socket) (ground (arith, size))
      (
        calm,
        same,
        waits,
        λ s. ground (
          arith,
          left s,
          ap (elem s) whole,
          elem-sorted s (common (union [] symbols) c.subscribed),
          elem-keep (λ x. elem x c.subscribed) s (union [] symbols),
          elem-union s [] symbols,
        ),
      )

-- The parts of a client that requests for new symbols leave alone.
abbrev pub Keeps : Client → Client → Type 0
Keeps c after = (after.has_socket ≡ c.has_socket) × (after.desired_symbols ≡ c.desired_symbols)

send_subscribe-Keeps :
    (sends : ℕ → Bool) (clock : ℕ → ℕ) (bs : List (List String)) (c : Client)
    → Keeps c (send_subscribe sends clock bs c).0
unfolding send_subscribe
send_subscribe-Keeps sends clock [] c = (refl, refl)
send_subscribe-Keeps sends clock (batch ∷ rest) c =
    let id = suc c.sequence in
    let (socket, wanted) = send_subscribe-Keeps sends clock rest (add_pending (clock id) batch c) in
    ground (arith, socket, wanted)

pub resubscribe-Keeps :
    (config : Settings) (sends : ℕ → Bool) (clock : ℕ → ℕ) (c : Client)
    → Keeps c (resubscribe config sends clock c).0
resubscribe-Keeps config sends clock c =
    resubscribe_cases (Keeps c) config sends clock c (refl, refl)
      (send_subscribe-Keeps sends clock (missing_batches config c) c)
