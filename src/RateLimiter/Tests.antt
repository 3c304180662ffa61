-- ===== src/RateLimiter/Tests.antt =====
-- Runs of the limiter with a limit of two requests per minute.
use stellar_core.Prelude.{ℕ, ◌/◌, ◌<◌, min, ◌≡◌, refl, ◌↔◌, none, some, List, [], ◌∷◌, arith}
use stellar_core.Prelude.Text.{codes, text_eq}
use stellar_core.RateLimiter.{
  Request, allowed, rejected, client_ip, get_count, set_count, current_counts, decide_count, check,
  new_limiter, correlation_id,
}
use stellar_core.RateLimiter.Totals.{
  requests_of_window, allowed_of_window, allowed_of_window-eq-min,
}
use stellar_core.RateLimiter.Windows.{Arrival, state_after, requests_in_window, check-allowed_iff}

abbrev first_client : Request
first_client = record { forwarded_for = some (codes " 10.0.0.1, 10.0.0.9"); real_ip = none }

abbrev second_client : Request
second_client = record { forwarded_for = none; real_ip = some (codes "10.0.0.2") }

abbrev arrival : Request → ℕ → Arrival
arrival r t = record { request = r; now = t; request_id = some (codes "req-12345") }

-- Newest first: three requests of the first client and one of the second in one window.
abbrev busy_history : List Arrival
busy_history =
    arrival first_client 60400
    ∷ arrival first_client 60300
    ∷ arrival second_client 60200
    ∷ arrival first_client 60100
    ∷ arrival first_client 59000
    ∷ []

client_ip_test : client_ip first_client ≡ codes "10.0.0.1"
unfolding client_ip
client_ip_test = refl

client_ip-real_ip_test : client_ip second_client ≡ codes "10.0.0.2"
unfolding client_ip
client_ip-real_ip_test = refl

requests_in_window_test : requests_in_window 60000 busy_history (codes "10.0.0.1") 1 ≡ 3
unfolding requests_in_window client_ip text_eq
requests_in_window_test = refl

check-rejected_test :
    (check 2 60000 (state_after 2 60000 busy_history) first_client 60500 none).0 ≡ rejected none
unfolding state_after check decide_count current_counts get_count set_count client_ip text_eq
    new_limiter correlation_id
check-rejected_test = refl

check-allowed_iff_example :
    ((check 2 60000 (state_after 2 60000 busy_history) second_client 60500 none).0 ≡ allowed)
    ↔ (requests_in_window 60000 busy_history (client_ip second_client) (60500 / 60000) < 2)
check-allowed_iff_example = check-allowed_iff 2 60000 busy_history second_client 60500 none

allowed_of_window-eq-min_example :
    allowed_of_window 2 60000 busy_history (codes "10.0.0.1") 1
    ≡ min 2 (requests_of_window 60000 busy_history (codes "10.0.0.1") 1)
allowed_of_window-eq-min_example =
    allowed_of_window-eq-min 2 60000 busy_history (codes "10.0.0.1") 1 (omega arith)
