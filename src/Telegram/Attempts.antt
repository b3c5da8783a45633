-- ===== src/Telegram/Attempts.antt =====
-- How many attempts app/telegram/client.py makes, and what their answers come to.
use bybit_crypto_monitor_tel.Base.{
  ℕ, String, zero, suc, ◌+◌, ◌≤◌, ◌<◌, ◌≡◌, ◌↔◌, ◌∙◌, refl, sym, Bool, true, false, Option, none,
  List, [], ◌∷◌, leb, ltb, nat_eq, arith, if◌then◌else◌, Bool-cases, inl, inr,
}
use bybit_crypto_monitor_tel.Base.Float.{Float}
use bybit_crypto_monitor_tel.Telegram.Split.{message_chunk_limit, split_message}
use bybit_crypto_monitor_tel.Alerts.Dispatcher.{SendOutcome, delivered, permanent, failed}
use bybit_crypto_monitor_tel.Telegram.Client.{
  Client, Decoded, no_json, no_object, object, Parsed, unparsed, parsed, read_decoded,
  flood_control, Post, Answer, http_error, response, Verdict, retryable, settled, permanent_failure,
  read_body, attempt_once, after_attempt, send_from, send_chunk, after_chunk, send_chunks,
  send_message,
}

-- No answer at all, or an error of the server.
abbrev pub is_retryable : Answer → Bool
is_retryable a = elim a.post [ http_error _ ↦ true | response r ↦ leb 500 r.status_code ]

abbrev says_ok : Decoded → Bool
says_ok (no_json _) = false
says_ok (no_object _) = false
says_ok (object b) = b.is_ok

-- No error status, and a body that says ok.
abbrev pub is_accepted : Answer → Bool
is_accepted a = elim a.post [
  | http_error _ ↦ false
  | response r ↦ if leb 400 r.status_code then false else says_ok r.body
]

abbrev pub is_delivered : SendOutcome → Bool
is_delivered delivered = true
is_delivered (permanent _) = false
is_delivered (failed _ _) = false

abbrev Agrees : Answer → Verdict → Type 0
Agrees a (retryable _) = (is_retryable a ≡ true) × (is_accepted a ≡ false)
Agrees a (settled outcome) = (is_retryable a ≡ false) × (is_delivered outcome ≡ is_accepted a)

abbrev answer_with : ℕ → Decoded → Option Float → ℕ → Answer
answer_with status body header at = record {
  post = response (record { status_code = status; body = body; header_retry_after = header });
  at = at;
}

-- Flood control delivers nothing, whatever the delay is.
flood_control-settled :
    (now : ℕ) (p : Parsed) (c : Client)
    → (outcome : SendOutcome) × ((flood_control now p c).1 ≡ settled outcome)
      × (is_delivered outcome ≡ false)
unfolding flood_control
flood_control-settled now (unparsed error) c = (failed error none, refl, refl)
flood_control-settled now (parsed delay) c =
    (failed "TelegramSendError: http_429" delay, refl, refl)

body-Agrees :
    (status : ℕ) (body : Decoded) (header : Option Float) (at : ℕ) (c : Client)
    → nat_eq status 429 ≡ false
    → Agrees
        (answer_with status body header at)
        (attempt_once (answer_with status body header at) c).1
unfolding attempt_once read_body permanent_failure
body-Agrees status (no_json error) header at c other = ground (arith, other)
body-Agrees status (no_object error) header at c other = ground (arith, other)
body-Agrees status (object b) header at c other = elim (Bool-cases b.is_ok) [
  | inl good ↦ ground (arith, other)
  | inr bad ↦ ground (arith, other)
]

response-Agrees :
    (status : ℕ) (body : Decoded) (header : Option Float) (at : ℕ) (c : Client)
    → Agrees
        (answer_with status body header at)
        (attempt_once (answer_with status body header at) c).1
unfolding attempt_once read_body permanent_failure
response-Agrees status body header at c = elim (Bool-cases (nat_eq status 429)) [
  | inl flooded ↦
      let (outcome, same, fails) = flood_control-settled at (read_decoded header body) c in
      rw (flooded, same) (ground (arith, fails))
  | inr other ↦ (body-Agrees status body header at c other)
]

post-Agrees :
    (p : Post) (at : ℕ) (c : Client)
    → let a : Answer = record { post = p; at = at } in Agrees a (attempt_once a c).1
unfolding attempt_once
post-Agrees (http_error _) at c = (refl, refl)
post-Agrees (response r) at c = response-Agrees r.status_code r.body r.header_retry_after at c

attempt-Agrees : (a : Answer) (c : Client) → Agrees a (attempt_once a c).1
attempt-Agrees a c = post-Agrees a.post a.at c

-- From an attempt on, one at most after all retries is accepted, and those before it are repeated.
pub record AcceptedFrom (max_retries attempt : ℕ) (answers : ℕ → Answer) : Type 0 where
  pub last : ℕ
  pub from : attempt ≤ last
  pub within : last ≤ max_retries
  pub before : (i : ℕ) → attempt ≤ i → i < last → is_retryable (answers i) ≡ true
  pub accepted : is_accepted (answers last) ≡ true

module _ {max_retries attempt : ℕ} {answers : ℕ → Answer} where
  accepted_later :
      is_retryable (answers attempt) ≡ true
      → AcceptedFrom max_retries (attempt + 1) answers
      → AcceptedFrom max_retries attempt answers
  accepted_later again a = record {
    last = a.last;
    from = omega (arith, a.from);
    within = a.within;
    before = λ i low high. elim (Bool-cases (nat_eq attempt i)) [
      | inl same ↦ let p : attempt ≡ i = ground arith in rw (sym p) again
      | inr other ↦ a.before i (ground arith) high
    ];
    accepted = a.accepted;
  }

  accepted_here :
      AcceptedFrom max_retries attempt answers
      → is_retryable (answers attempt) ≡ false
      → is_accepted (answers attempt) ≡ true
  accepted_here a final = elim (Bool-cases (nat_eq attempt a.last)) [
    | inl same ↦ let p : attempt ≡ a.last = ground arith in rw p a.accepted
    | inr other ↦
        let repeated : is_retryable (answers attempt) ≡ true =
          a.before attempt (omega arith) (ground (arith, a.from)) in
        ground arith
  ]

  accepted_next :
      AcceptedFrom max_retries attempt answers
      → is_accepted (answers attempt) ≡ false
      → AcceptedFrom max_retries (attempt + 1) answers
  accepted_next a refused = elim (Bool-cases (nat_eq attempt a.last)) [
    | inl same ↦
        let p : attempt ≡ a.last = ground arith in
        let yes : is_accepted (answers attempt) ≡ true = rw p a.accepted in ground arith
    | inr other ↦ record {
      last = a.last;
      from = ground (arith, a.from);
      within = a.within;
      before = λ i low high. a.before i (omega (arith, low)) high;
      accepted = a.accepted;
    }
  ]

verdict_then :
    (max_retries now attempt : ℕ) (answers : ℕ → Answer) (c : Client)
    (again : Client → Client × SendOutcome) (v : Verdict)
    → Agrees (answers attempt) v
    → attempt ≤ max_retries
    → ((later : Client)
        → (is_delivered (again later).1 ≡ true) ↔ AcceptedFrom max_retries (attempt + 1) answers)
    → (is_delivered (after_attempt max_retries now attempt c again v).1 ≡ true)
      ↔ AcceptedFrom max_retries attempt answers
unfolding after_attempt
verdict_then m now i answers c again (settled outcome) (final, same) bound rest = (
  λ e. record {
    last = i;
    from = omega arith;
    within = bound;
    before = λ j low high. let impossible : ⊥ = omega (arith, low, high) in absurd impossible;
    accepted = sym same ∙ e;
  },
  λ a. same ∙ accepted_here a final,
)
verdict_then m now i answers c again (retryable name) (repeated, refused) bound rest =
    elim (Bool-cases (ltb m (i + 1))) [
      | inl over ↦ rw over (
        λ e. ground arith,
        λ a.
            let next = accepted_next a refused in
            let low = next.from in
            let high = next.within in let impossible : ⊥ = ground arith in absurd impossible,
      )
      | inr more ↦ rw more (
          let (there, back) = rest _ in
          (λ e. accepted_later repeated (there e), λ a. back (accepted_next a refused)))
    ]

send_from-delivers :
    (max_retries fuel attempt : ℕ) (answers : ℕ → Answer) (c : Client)
    → fuel + attempt ≡ suc max_retries
    → (is_delivered (send_from max_retries fuel answers attempt c).1 ≡ true)
      ↔ AcceptedFrom max_retries attempt answers
unfolding send_from
send_from-delivers m zero i answers c h = (
  λ never. ground arith,
  λ a. let impossible : ⊥ = omega (arith, h, a.from, a.within) in absurd impossible,
)
send_from-delivers m (suc fuel) i answers c h =
    verdict_then m (answers i).at i answers (attempt_once (answers i) c).0
      (λ noted. send_from m fuel answers (i + 1) noted) (attempt_once (answers i) c).1
      (attempt-Agrees (answers i) c) (omega (arith, h))
      (λ later. send_from-delivers m fuel (i + 1) answers later (omega (arith, h)))

-- The call returns, rather than raise an exception, exactly when one of the first attempt and as
-- many retries as are allowed is accepted, and every attempt before it had no answer or a server
-- error.
pub send_chunk-delivers :
    (max_retries : ℕ) (answers : ℕ → Answer) (c : Client)
    → (is_delivered (send_chunk max_retries answers c).1 ≡ true)
      ↔ AcceptedFrom max_retries 0 answers
unfolding send_chunk
send_chunk-delivers m answers c = send_from-delivers m (suc m) 0 answers c (omega arith)

chunk_then :
    {A B : Type 0} (c : Client) (next : Client → Client × SendOutcome) (outcome : SendOutcome)
    → ((is_delivered outcome ≡ true) ↔ A)
    → ((is_delivered (next c).1 ≡ true) ↔ B)
    → (is_delivered (after_chunk c next outcome).1 ≡ true) ↔ (A × B)
unfolding after_chunk
chunk_then c next delivered h k = (λ e. (h.0 refl, k.0 e), λ p. k.1 p.1)
chunk_then c next (permanent error) h k = (λ e. ground arith, λ p. h.1 p.0)
chunk_then c next (failed error retry_after) h k = (λ e. ground arith, λ p. h.1 p.0)

-- What is accepted for each of the chunks that are left.
abbrev pub AllAccepted : ℕ → (ℕ → String → ℕ → Answer) → ℕ → List String → Type 0
AllAccepted max_retries answers n [] = Unit
AllAccepted max_retries answers n (chunk ∷ chunks) =
    AcceptedFrom max_retries 0 (answers n chunk) × AllAccepted max_retries answers (suc n) chunks

send_chunks-delivers :
    (max_retries : ℕ) (answers : ℕ → String → ℕ → Answer) (n : ℕ) (chunks : List String)
    (c : Client)
    → (is_delivered (send_chunks max_retries answers n chunks c).1 ≡ true)
      ↔ AllAccepted max_retries answers n chunks
unfolding send_chunks
send_chunks-delivers m answers n [] c = (λ _. tt, λ _. refl)
send_chunks-delivers m answers n (chunk ∷ chunks) c =
    let sent = send_chunk m (answers n chunk) c in
    chunk_then sent.0 (λ later. send_chunks m answers (suc n) chunks later) sent.1
      (send_chunk-delivers m (answers n chunk) c)
      (send_chunks-delivers m answers (suc n) chunks sent.0)

-- `send_message` returns, rather than raise an exception, exactly when for every chunk of the
-- message one of the first attempt and as many retries as are allowed is accepted, and every
-- attempt before it had no answer or a server error.
pub send_message-delivers :
    (max_retries : ℕ) (answers : ℕ → String → ℕ → Answer) (text : String) (c : Client)
    → (is_delivered (send_message max_retries answers text c).1 ≡ true)
      ↔ AllAccepted max_retries answers 0 (split_message text message_chunk_limit)
unfolding send_message
send_message-delivers m answers text c =
    send_chunks-delivers m answers 0 (split_message text message_chunk_limit) c
