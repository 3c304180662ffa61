-- ===== src/Cron/Tests.antt =====
-- Requests with a secret and a timestamp; dates are read as the number of their code units.
use stellar_core.Prelude.{ℕ, ◌+◌, ◌≡◌, refl, ◌↔◌, ◌⊎◌, Option, none, some, length}
use stellar_core.Prelude.Int.{pos, at, ◌+ℤ◌, ◌-ℤ◌, ◌≤ℤ◌}
use stellar_core.Prelude.Text.{
  codes, strip_prefix, trim_start, trim_end, is_space, cons_unless_blank, text_eq,
}
use Prim.Native.String.{String}
use stellar_core.Cron.{
  resolve_cron_rotation, non_empty, normalize_optional, require_primary, same_as,
  parse_rotation_timestamp, read_rotation, is_overlap, kept_previous,
}
use stellar_core.Cron.Gate.{IsTimely, refresh_is_guarded}
use stellar_core.Cron.Request.{
  within_window, CronEnvironment, CronDependencies, CronRequest, primary_of, authorized_by,
  has_valid_cron_authorization, is_safe_skew, evaluate_cron_timestamp, unauthorized, refreshed,
  respond, get_scheduled_refresh_response, no_space, token_of, bearer_token, same_digest,
  authenticates, input_of, place_in_window, decide_times, presented_time, is_within,
  passes_timestamp,
}
use stellar_core.Cron.Secrets.{IsAuthorized}
use stellar_core.Cron.Window.{IsInWindow, evaluate_cron_timestamp_iff}

abbrev environment : CronEnvironment
environment = record {
  parse_date = λ t. some (pos (length t));
  digest = λ t. t;
  configured_secret = some (some (codes "new"));
  environment_previous = some (codes "old");
  environment_until = some (codes "2026");
  now = pos 3;
  now_date = at (pos 3);
}

abbrev dependencies : CronDependencies
dependencies = record {
  cron_secret = none;
  cron_previous_secret = none;
  cron_rotation_until = none;
  cron_now = none;
  cron_timestamp_now = none;
  cron_timestamp_skew_ms = some (pos 1);
}

abbrev request : String → String → CronRequest
request authorization timestamp = record {
  authorization = some (codes authorization);
  cron_timestamp = some (codes timestamp);
}

abbrev run_once : ℕ → ℕ × Option ℕ
run_once s = (s + 1, some s)

-- The previous secret is accepted before the end of the rotation, with a timestamp 1 ms away.
previous_test :
    get_scheduled_refresh_response environment dependencies run_once (request "Bearer old" "2026") 0
    ≡ (1, refreshed 0)
unfolding get_scheduled_refresh_response has_valid_cron_authorization primary_of authorized_by
    resolve_cron_rotation require_primary normalize_optional input_of trim_start trim_end same_as
    text_eq read_rotation parse_rotation_timestamp authenticates bearer_token token_of strip_prefix
    no_space same_digest kept_previous is_overlap passes_timestamp decide_times
    evaluate_cron_timestamp is_safe_skew is_within place_in_window presented_time respond non_empty
    ◌+ℤ◌ ◌-ℤ◌ cons_unless_blank is_space
previous_test = refl

evaluate_cron_timestamp_iff_example :
    (evaluate_cron_timestamp environment.parse_date
        (some (codes "2026"))
        (at (pos 3))
        (some (pos 1))
      ≡ within_window)
    ↔ (((pos 0 ≤ℤ pos 1) × (pos 1 ≤ℤ pos 9007199254740991))
        × IsInWindow environment.parse_date (some (codes "2026")) (at (pos 3)) (pos 1))
evaluate_cron_timestamp_iff_example =
    evaluate_cron_timestamp_iff environment.parse_date (some (codes "2026")) (at (pos 3))
      (some (pos 1))

refresh_is_guarded_example :
    (get_scheduled_refresh_response environment dependencies run_once
        (request "Bearer old" "2026")
        0
      ≡ (0, unauthorized))
    ⊎ ((get_scheduled_refresh_response environment dependencies run_once
            (request "Bearer old" "2026")
            0
          ≡ respond (run_once 0))
        × IsAuthorized environment dependencies (some (codes "Bearer old"))
        × IsTimely environment dependencies (some (codes "2026")))
refresh_is_guarded_example =
    refresh_is_guarded environment dependencies run_once (request "Bearer old" "2026") 0
