-- ===== src/Health/Streaks.antt =====
-- app/health/monitor.py: what the classification comes to over a run of snapshots.
use bybit_crypto_monitor_tel.Base.{
  ℕ, ◌≡◌, ◌↔◌, ◌⊎◌, refl, ap, ◌∙◌, Bool, true, false, ◌&&◌, ◌||◌, not, Option, none, some, String,
  List, [], ◌∷◌, ◌++◌, ◌==◌, String_eq, elem, keep, any, if◌then◌else◌, get_or, arith, Bool-cases,
  inl, inr, text_eq_iff, eq_sym,
}
use bybit_crypto_monitor_tel.Base.Dict.{Dict, get, get-nil, get-set}
use bybit_crypto_monitor_tel.Config.{Settings}
use bybit_crypto_monitor_tel.Health.State.{healthy, unhealthy, HealthState}
use bybit_crypto_monitor_tel.Health.Classify.{
  issue_if, enabled_spot, enabled_linear, ws_acceptable, critical, degradations, only_bad,
  set_default, track_all, track, long_since, is_persisted, is_empty, overall_of, classify, Monitor,
  new_monitor, Look, collected, snapshot,
}

-- The names that are bad at a look, whatever was counted before.
unfoldable pub bad_at : Settings → Look → List String
bad_at config look = critical config (collected config 0 look)

-- The time of the first of the looks in a row, up to the latest, at which a name is bad. The latest
-- look stands first.
unfoldable pub bad_since : Settings → String → List Look → Option ℕ
bad_since config name [] = none
bad_since config name (look ∷ earlier) =
    if elem name (bad_at config look)
    then some (get_or (bad_since config name earlier) look.monotonic)
    else none

-- The monitor after some looks.
unfoldable pub watch : Settings → List Look → Monitor → Monitor
watch config [] m = m
watch config (look ∷ earlier) m = (snapshot config look (watch config earlier m)).1

get-only_bad :
    (bad : List String) (name : String) (d : Dict String ℕ)
    → get name (only_bad bad d) ≡ (if elem name bad then get name d else none)
unfolding get only_bad
get-only_bad bad name [] = ground arith
get-only_bad bad name ((j, since) ∷ rest) =
    ground (arith, text_eq_iff j name, get-only_bad bad name rest)

get-set_default :
    (now : ℕ) (k name : String) (d : Dict String ℕ)
    → get name (set_default k now d)
      ≡ (if k == name then some (get_or (get k d) now) else get name d)
unfolding set_default
get-set_default now k name d = ground (arith, get-set k name now d, text_eq_iff k name)

get-track_all :
    (now : ℕ) (names : List String) (name : String) (d : Dict String ℕ)
    → get name (track_all now names d)
      ≡ (if elem name names then some (get_or (get name d) now) else get name d)
unfolding track_all
get-track_all now [] name d = refl
get-track_all now (k ∷ names) name d = ground (
  arith,
  get-track_all now names name (set_default k now d),
  get-set_default now k name d,
  text_eq_iff k name,
  text_eq_iff name k,
)

get-track :
    (now : ℕ) (bad : List String) (name : String) (d : Dict String ℕ)
    → get name (track now bad d) ≡ (if elem name bad then some (get_or (get name d) now) else none)
unfolding track
get-track now bad name d = ground (
  arith,
  get-only_bad bad name (track_all now bad (only_bad bad d)),
  get-track_all now bad name (only_bad bad d),
  get-only_bad bad name d,
)

tracked :
    (config : Settings) (name : String) (looks : List Look) (m : Monitor)
    → m.critical_since ≡ []
    → get name (watch config looks m).critical_since ≡ bad_since config name looks
unfolding watch bad_since bad_at snapshot classify critical
tracked config name [] m h = rw h (get-nil name)
tracked config name (look ∷ earlier) m h =
    get-track look.monotonic (bad_at config look) name (watch config earlier m).critical_since
    ∙ rw (tracked config name earlier m h) refl

no_database :
    (dispatcher rest spot linear : Bool)
    → elem "database" (
        issue_if dispatcher "dispatcher"
        ++ (issue_if rest "rest" ++ (issue_if spot "spot_ws" ++ issue_if linear "linear_ws")))
      ≡ false
no_database dispatcher rest spot linear = ground arith

elem-database :
    (config : Settings) (st : HealthState)
    → elem "database" (critical config st) ≡ not st.database_healthy
unfolding critical
elem-database config st = elim (Bool-cases st.database_healthy) [
  | inl up ↦ rw up (
      no_database (not st.dispatcher_healthy) (not st.rest_healthy)
        (enabled_spot config && not (ws_acceptable config st.last_spot_ticker_age))
        (enabled_linear config && not (ws_acceptable config st.last_linear_ticker_age)))
  | inr down ↦ rw down refl
]

is_empty-keep : (p : String → Bool) (xs : List String) → is_empty (keep p xs) ≡ not (any p xs)
is_empty-keep p [] = refl
is_empty-keep p (x ∷ xs) = ground (arith, is_empty-keep p xs)

-- Bad in a row for the grace period, or longer.
abbrev pub is_overdue : Settings → List Look → ℕ → String → Bool
is_overdue config looks now name =
    long_since config.critical_health_failure_seconds now (bad_since config name looks)

any-persisted :
    (grace now : ℕ) (tracker : Dict String ℕ) (p : String → Bool) (names : List String)
    → ((name : String) → long_since grace now (get name tracker) ≡ p name)
    → any (is_persisted grace now tracker) names ≡ (any p names || elem "database" names)
any-persisted grace now tracker p [] h = refl
any-persisted grace now tracker p (name ∷ names) h =
    ground (arith, h name, eq_sym "database" name, any-persisted grace now tracker p names h)

overall_unhealthy :
    (up : Bool) (persisted bad degraded_issues : List String)
    → (overall_of up persisted bad degraded_issues ≡ unhealthy)
      ↔ ((up ≡ false) ⊎ (is_empty persisted ≡ false))
unfolding overall_of
overall_unhealthy false p b d = (λ _. inl refl, λ _. refl)
overall_unhealthy true (x ∷ p) b d = (λ _. inr refl, λ _. refl)
overall_unhealthy true [] (x ∷ b) d = (λ e. cc, λ e. ground arith)
overall_unhealthy true [] [] (x ∷ d) = (λ e. cc, λ e. ground arith)
overall_unhealthy true [] [] [] = (λ e. cc, λ e. ground arith)

overall_healthy :
    (up : Bool) (p : String → Bool) (bad degraded_issues : List String)
    → elem "database" bad ≡ not up
    → (overall_of up (keep p bad) bad degraded_issues ≡ healthy)
      ↔ ((bad ≡ []) × (degraded_issues ≡ []))
unfolding overall_of
overall_healthy false p [] d h = (λ e. cc, λ e. cc)
overall_healthy false p (x ∷ b) d h = (λ e. cc, λ e. cc)
overall_healthy true p [] [] h = (λ _. (refl, refl), λ _. refl)
overall_healthy true p [] (x ∷ d) h = (λ e. cc, λ e. cc)
overall_healthy true p (x ∷ b) d h = (λ e. ground arith, λ e. cc)

overdue_unhealthy :
    (up : Bool) (grace now : ℕ) (tracker : Dict String ℕ) (p : String → Bool)
    (bad degraded_issues : List String)
    → ((name : String) → long_since grace now (get name tracker) ≡ p name)
    → elem "database" bad ≡ not up
    → (overall_of up (keep (is_persisted grace now tracker) bad) bad degraded_issues ≡ unhealthy)
      ↔ ((up ≡ false) ⊎ (any p bad ≡ true))
overdue_unhealthy up grace now tracker p bad d h k =
    let (there, back) = overall_unhealthy up (keep (is_persisted grace now tracker) bad) bad d in
    let empty = is_empty-keep (is_persisted grace now tracker) bad in
    let some_bad = any-persisted grace now tracker p bad h in
    (λ e. ground (arith, there e), λ e. back (ground arith))

-- Over a run of snapshots of a new monitor, the latest is unhealthy exactly when the database was not
-- found healthy in it, or some critical issue has been there in this snapshot and all before it back
-- to one that is the grace period old; and it is healthy exactly when there is no issue, critical or
-- not.
pub snapshot-overall :
    (config : Settings) (look : Look) (earlier : List Look)
    → let st = (snapshot config look (watch config earlier new_monitor)).0 in
      let bad = bad_at config look in
      ((st.overall ≡ unhealthy) ↔ (
        (st.database_healthy ≡ false)
        ⊎ (any (is_overdue config (look ∷ earlier) look.monotonic) bad ≡ true)))
      × ((st.overall ≡ healthy) ↔ ((bad ≡ []) × (degradations st ≡ [])))
unfolding snapshot classify bad_at critical watch degradations
snapshot-overall config look earlier =
    let st = collected config 0 look in
    let m = watch config earlier new_monitor in
    (
      overdue_unhealthy st.database_healthy config.critical_health_failure_seconds look.monotonic
          (track look.monotonic (critical config st) m.critical_since)
          (is_overdue config (look ∷ earlier) look.monotonic) (critical config st) (degradations st)
          (λ name.
            ap (long_since config.critical_health_failure_seconds look.monotonic)
              (tracked config name (look ∷ earlier) new_monitor refl))
          (elem-database config st),
      overall_healthy st.database_healthy
          (is_persisted config.critical_health_failure_seconds look.monotonic
            (track look.monotonic (critical config st) m.critical_since))
          (critical config st) (degradations st) (elem-database config st),
    )
