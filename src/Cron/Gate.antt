-- ===== src/Cron/Gate.antt =====
-- lib/scheduled/http.ts: what a request must present before the refresh runs.
use stellar_core.Prelude.{
  ◌≡◌, refl, ◌⊎◌, inl, inr, true, Option, none, some, arith, Bool-cases, Option-cases,
}
use stellar_core.Prelude.Int.{ℤ}
use stellar_core.Prelude.Text.{Text}
use stellar_core.Cron.{normalize_optional}
use stellar_core.Cron.Request.{
  CronTimestampDecision, within_window, timestamp_expired, timestamp_future, timestamp_invalid,
  CronEnvironment, CronDependencies, CronRequest, or_given, has_valid_cron_authorization,
  presented_time, evaluate_cron_timestamp, is_within, passes_timestamp, unauthorized, respond,
  get_scheduled_refresh_response,
}
use stellar_core.Cron.Secrets.{IsAuthorized, authorized_lem}
use stellar_core.Cron.Window.{IsInWindow, skew_of, evaluate_cron_timestamp_iff}

-- The timestamp that a request presents is in the window; without one, no clock is injected for it.
abbrev pub IsTimely : CronEnvironment → CronDependencies → Option Text → Type 0
IsTimely env d none = d.cron_timestamp_now ≡ none
IsTimely env d (some timestamp) =
    IsInWindow env.parse_date (some timestamp) (or_given d.cron_timestamp_now env.now_date)
      (skew_of d.cron_timestamp_skew_ms)

is_within_lem : (x : CronTimestampDecision) → is_within x ≡ true → x ≡ within_window
unfolding is_within
is_within_lem within_window e = refl
is_within_lem timestamp_expired e = cc
is_within_lem timestamp_future e = cc
is_within_lem timestamp_invalid e = cc

not_presented : (parse_date : Text → Option ℤ) (x : ℤ) → presented_time parse_date none ≡ some x → ⊥
unfolding presented_time normalize_optional
not_presented parse_date x f = cc

passes_lem :
    (env : CronEnvironment) (d : CronDependencies) (timestamp : Option Text)
    → passes_timestamp env d timestamp ≡ true
    → IsTimely env d timestamp
unfolding passes_timestamp
passes_lem env d none h = elim (Option-cases d.cron_timestamp_now) [
  | inl e ↦ e
  | inr (now, e) ↦
      let h' : is_within (evaluate_cron_timestamp env.parse_date none now d.cron_timestamp_skew_ms)
          ≡ true =
        ground (arith, h, e) in
      let within = evaluate_cron_timestamp_iff env.parse_date none now d.cron_timestamp_skew_ms in
      let (x, y, f, _, _, _) = (within.0 (is_within_lem _ h')).1 in
      absurd (not_presented env.parse_date x f)
]
passes_lem env d (some timestamp) h =
    ((evaluate_cron_timestamp_iff env.parse_date (some timestamp) _ d.cron_timestamp_skew_ms).0
      (is_within_lem _ h)).1

module _ {S B : Type 0} where
  -- A request for the scheduled refresh is answered 401 and leaves the world as it is, or the
  -- refresh runs; then the request bears a token with the digest of the primary secret, or of the
  -- previous one before the end of its rotation, and a timestamp that it presents is in the window.
  pub refresh_is_guarded :
      (env : CronEnvironment) (d : CronDependencies) (run : S → S × Option B)
      (request : CronRequest) (s : S)
      → (get_scheduled_refresh_response env d run request s ≡ (s, unauthorized))
        ⊎ ((get_scheduled_refresh_response env d run request s ≡ respond (run s))
            × IsAuthorized env d request.authorization
            × IsTimely env d request.cron_timestamp)
  unfolding get_scheduled_refresh_response
  refresh_is_guarded env d run request s =
      elim (Bool-cases (has_valid_cron_authorization env d request.authorization)) [
        | inr e ↦ inl (rw e refl)
        | inl e ↦ elim (Bool-cases (passes_timestamp env d request.cron_timestamp)) [
          | inr f ↦ inl (rw (e, f) refl)
          | inl f ↦ inr (rw (e, f) refl, authorized_lem env d _ e, passes_lem env d _ f)
        ]
      ]
