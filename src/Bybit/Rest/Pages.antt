-- ===== src/Bybit/Rest/Pages.antt =====
-- The listing over pages of app/bybit/rest.py against a description of the pages.
use bybit_crypto_monitor_tel.Base.{
  ℕ, zero, suc, ◌≡◌, ◌↔◌, refl, sym, ◌∙◌, subst, ap, Option, none, some, String, List, [], ◌++◌,
  arith, true, false, Bool-cases, inl, inr, ◌⊎◌,
}
use bybit_crypto_monitor_tel.Bybit.Models.{Instrument}
use bybit_crypto_monitor_tel.Bybit.Json.{Python, Json, Fields, is_true, str, get_json}
use bybit_crypto_monitor_tel.Bybit.Normalizer.{parse_instrument}
use bybit_crypto_monitor_tel.Bybit.Rest.{
  Server, result_of, parse_list, cursor_of, fetch_page, after_page, fetch_from, fetch_instruments,
}
use bybit_crypto_monitor_tel.Bybit.Rest.Request.{request, RestError, Fetched, raised, returned}
use mathlib.Core.List.{append_assoc}

Fetched-cases :
    {A : Type 0} (r : Fetched A) → ((e : RestError) × (r ≡ raised e)) ⊎ ((a : A) × (r ≡ returned a))
Fetched-cases (raised e) = inl (e, refl)
Fetched-cases (returned a) = inr (a, refl)

abbrev with_items : List Instrument → Fetched (List Instrument) → Fetched (List Instrument)
with_items items (raised e) = raised e
with_items items (returned rest) = returned (items ++ rest)

with_items-append :
    (xs ys : List Instrument) (r : Fetched (List Instrument))
    → with_items (xs ++ ys) r ≡ with_items xs (with_items ys r)
with_items-append xs ys (raised e) = refl
with_items-append xs ys (returned rest) = ap returned (append_assoc xs ys rest)

with_items-nil : (r : Fetched (List Instrument)) → with_items [] r ≡ r
with_items-nil (raised e) = refl
with_items-nil (returned rest) = refl

-- The cursor of the next page that an answer names: none, if the field is missing or empty.
pub data Cursor (python : Python) (field : Json) : Option String → Type 0 where
  absent : is_true field ≡ false → Cursor python field none
  named : is_true field ≡ true → Cursor python field (some (str python field))

cursor_of-Cursor : (python : Python) (j : Json) → Cursor python j (cursor_of python j)
cursor_of-Cursor python j = elim (Bool-cases (is_true j)) [
  | inl there ↦ rw there (named there)
  | inr gone ↦ rw gone (absent gone)
]

Cursor-cursor_of :
    {python : Python} {j : Json} {c : Option String} → Cursor python j c → cursor_of python j ≡ c
Cursor-cursor_of (absent gone) = rw gone refl
Cursor-cursor_of (named there) = rw there refl

module _ (python : Python) (max_retries : ℕ) (category : String) (pages : Server) where
  -- The page with a number, that was asked for by a cursor: the steps at which it can fail, or the
  -- instruments of its list and the cursor that it names.
  pub data Page (n : ℕ) (cursor : Option String)
      : Fetched (List Instrument × Option String) → Type 0 where
    no_answer :
        (e : RestError)
        → request python max_retries (pages n cursor) ≡ raised e
        → Page n cursor (raised e)
    no_result :
        (payload : Fields) (e : RestError)
        → request python max_retries (pages n cursor) ≡ returned payload
        → result_of (get_json "result" payload) ≡ raised e
        → Page n cursor (raised e)
    no_list :
        (payload result : Fields) (e : RestError)
        → request python max_retries (pages n cursor) ≡ returned payload
        → result_of (get_json "result" payload) ≡ returned result
        → parse_list (parse_instrument python category) (get_json "list" result) ≡ raised e
        → Page n cursor (raised e)
    listed :
        (payload result : Fields) (items : List Instrument) (next : Option String)
        → request python max_retries (pages n cursor) ≡ returned payload
        → result_of (get_json "result" payload) ≡ returned result
        → parse_list (parse_instrument python category) (get_json "list" result) ≡ returned items
        → Cursor python (get_json "nextPageCursor" result) next
        → Page n cursor (returned (items, next))

  fetch_page-Page :
      (n : ℕ) (cursor : Option String)
      → Page n cursor (fetch_page python max_retries category pages n cursor)
  unfolding fetch_page
  fetch_page-Page n cursor = elim (Fetched-cases (request python max_retries (pages n cursor))) [
    | inl (e, h) ↦ rw h (no_answer e h)
    | inr (payload, h) ↦ elim (Fetched-cases (result_of (get_json "result" payload))) [
      | inl (e, k) ↦ rw h (rw k (no_result payload e h k))
      | inr (result, k) ↦
          elim (Fetched-cases
            (parse_list (parse_instrument python category) (get_json "list" result))) [
              | inl (e, l) ↦ rw h (rw k (rw l (no_list payload result e h k l)))
              | inr (items, l) ↦ rw h (
                  rw k (
                    rw l (
                      listed payload result items
                        (cursor_of python (get_json "nextPageCursor" result)) h k l
                        (cursor_of-Cursor python (get_json "nextPageCursor" result)))))
            ]
    ]
  ]

  Page-fetch_page :
      {n : ℕ} {cursor : Option String} {v : Fetched (List Instrument × Option String)}
      → Page n cursor v
      → fetch_page python max_retries category pages n cursor ≡ v
  unfolding fetch_page
  Page-fetch_page (no_answer e h) = rw h refl
  Page-fetch_page (no_result payload e h k) = rw h (rw k refl)
  Page-fetch_page (no_list payload result e h k l) = rw h (rw k (rw l refl))
  Page-fetch_page (listed payload result items next h k l c) =
      rw h (rw k (rw l (ap (λ o. returned (items, o)) (Cursor-cursor_of c))))

  -- The pages from the one with a number and a cursor on: each is fetched and names the next, until
  -- one names none or fails.
  pub data Pages : ℕ → Option String → Fetched (List Instrument) → Type 0 where
    last_page :
        (n : ℕ) (cursor : Option String) (items : List Instrument)
        → Page n cursor (returned (items, none))
        → Pages n cursor (returned items)
    failing :
        (n : ℕ) (cursor : Option String) (e : RestError)
        → Page n cursor (raised e)
        → Pages n cursor (raised e)
    more :
        (n : ℕ) (cursor : Option String) (items : List Instrument) (c : String)
        (rest : Fetched (List Instrument))
        → Page n cursor (returned (items, some c))
        → Pages (suc n) (some c) rest
        → (all : Fetched (List Instrument)) → all ≡ with_items items rest
        → Pages n cursor all

  fetch_from_complete :
      {n : ℕ} {cursor : Option String} {rest : Fetched (List Instrument)}
      → Pages n cursor rest
      → (fuel : ℕ) × ((results : List Instrument)
          → fetch_from python max_retries category pages fuel n cursor results
            ≡ some (with_items results rest))
  unfolding fetch_from after_page
  fetch_from_complete (last_page n cursor items e) = (1, λ results. rw (Page-fetch_page e) refl)
  fetch_from_complete (failing n cursor x e) = (1, λ results. rw (Page-fetch_page e) refl)
  fetch_from_complete (more n cursor items c rest e p all same) =
      let (fuel, h) = fetch_from_complete p in
      (
        suc fuel,
        λ results.
            rw (Page-fetch_page e, same)
              (h (results ++ items) ∙ ap some (with_items-append results items rest)),
      )

  -- What is left to fetch after some results.
  Left : ℕ → Option String → List Instrument → Fetched (List Instrument) → Type 0
  Left n cursor results r =
      (rest : Fetched (List Instrument)) × Pages n cursor rest × (r ≡ with_items results rest)

  after_page_sound :
      (n : ℕ) (cursor : Option String) (results : List Instrument)
      (next : Option String → List Instrument → Option (Fetched (List Instrument)))
      (v : Fetched (List Instrument × Option String)) (r : Fetched (List Instrument))
      → Page n cursor v
      → ((c : String) (later : List Instrument)
          → next (some c) later ≡ some r
          → Left (suc n) (some c) later r)
      → after_page next results v ≡ some r
      → Left n cursor results r
  unfolding after_page Left
  after_page_sound n cursor results next (raised e) r page ih h =
      (raised e, failing n cursor e page, ground arith)
  after_page_sound n cursor results next (returned (items, none)) r page ih h =
      (returned items, last_page n cursor items page, ground arith)
  after_page_sound n cursor results next (returned (items, some c)) r page ih h =
      let (rest, p, same) = ih c (results ++ items) h in
      (
        with_items items rest,
        more n cursor items c rest page p (with_items items rest) refl,
        same ∙ with_items-append results items rest,
      )

  fetch_from_sound :
      (fuel n : ℕ) (cursor : Option String) (results : List Instrument)
      (r : Fetched (List Instrument))
      → fetch_from python max_retries category pages fuel n cursor results ≡ some r
      → Left n cursor results r
  unfolding fetch_from
  fetch_from_sound zero n cursor results r h = cc
  fetch_from_sound (suc fuel) n cursor results r h =
      after_page_sound n cursor results (fetch_from python max_retries category pages fuel (suc n))
        (fetch_page python max_retries category pages n cursor) r (fetch_page-Page n cursor)
        (λ c later. fetch_from_sound fuel (suc n) (some c) later r) h

-- With enough turns of the loop a listing ends with a result exactly when the server's pages do,
-- where the first is asked for without a cursor and each other one with the cursor that the page
-- before names: with the instruments of all pages in order, up to one that names no cursor, or with
-- the error of the first page that fails.
pub fetch_instruments-Pages :
    (python : Python) (max_retries : ℕ) (category : String) (pages : Server)
    (r : Fetched (List Instrument))
    → ((fuel : ℕ) × (fetch_instruments python max_retries category pages fuel ≡ some r))
      ↔ Pages python max_retries category pages 0 none r
unfolding fetch_instruments Left
fetch_instruments-Pages python m category pages r = (
  λ (fuel, h).
      let (rest, p, same) = fetch_from_sound python m category pages fuel 0 none [] r h in
      subst (Pages python m category pages 0 none) (sym (same ∙ with_items-nil rest)) p,
  λ p.
      let (fuel, h) = fetch_from_complete python m category pages p in
      (fuel, h [] ∙ ap some (with_items-nil r)),
)
