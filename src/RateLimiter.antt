-- ===== src/RateLimiter.antt =====
-- lib/api/rateLimiter.ts: the fixed-window rate limiter of the public routes, with
-- `isValidRequestId` of lib/api/requestId.ts. The closure's variables are the record LimiterState.
-- A request is the values of the two headers that `clientIp` reads; `now` is a natural number of
-- milliseconds and the window is positive.
mod Windows
mod Totals
mod Tests
use stellar_core.Prelude.{
  ℕ, ◌+◌, ◌/◌, Bool, true, false, ◌&&◌, ◌||◌, Option, none, some, List, [], ◌∷◌, leb, ◌==◌,
  if◌then◌else◌, length,
}
use stellar_core.Prelude.Text.{
  trim_start, trim_end, split_head, is_space, cons_unless_blank, Text, codes, text_eq, is_digit,
}

abbrev public_rate_limit : ℕ
public_rate_limit = 100

abbrev public_rate_limit_window_ms : ℕ
public_rate_limit_window_ms = 60000

pub record Request : Type 0 where
  pub forwarded_for : Option Text
  pub real_ip : Option Text

-- The response 429 by the request id of its body and its header.
pub data RateLimitDecision : Type 0 where
  allowed : RateLimitDecision
  rejected : Option Text → RateLimitDecision

pub record LimiterState : Type 0 where
  pub request_counts : List (Text × ℕ)
  pub active_window : Option ℕ

unfoldable pub new_limiter : LimiterState
new_limiter = record { request_counts = []; active_window = none }

or_else : Text → Text → Text
or_else [] t = t
or_else (c ∷ s) t = c ∷ s

-- `x-real-ip` where it is given and not empty.
real_ip_or_anonymous : Option Text → Text
unfolding or_else
real_ip_or_anonymous none = codes "anonymous"
real_ip_or_anonymous (some ip) = or_else ip (codes "anonymous")

unfoldable pub client_ip : Request → Text
unfolding real_ip_or_anonymous or_else trim_start trim_end cons_unless_blank is_space split_head
client_ip request = elim request.forwarded_for [
  | none ↦ real_ip_or_anonymous request.real_ip
  | some forwarded ↦
      or_else (trim_end (trim_start (split_head b',' forwarded)))
        (real_ip_or_anonymous request.real_ip)
]

-- `requestCounts.get(key) ?? 0`.
unfoldable pub get_count : List (Text × ℕ) → Text → ℕ
get_count [] key = 0
get_count ((k, n) ∷ counts) key =
    let rest = get_count counts key in if text_eq k key then n else rest

-- `requestCounts.set(key, n)`.
unfoldable pub set_count : List (Text × ℕ) → Text → ℕ → List (Text × ℕ)
set_count [] key m = (key, m) ∷ []
set_count ((k, n) ∷ counts) key m =
    let rest = set_count counts key m in if text_eq k key then (k, m) ∷ counts else (k, n) ∷ rest

is_alphanumeric : ℕ → Bool
unfolding is_digit
is_alphanumeric c = is_digit c || (leb b'A' c && leb c b'Z') || (leb b'a' c && leb c b'z')

all_id_characters : Text → Bool
unfolding is_alphanumeric is_digit
all_id_characters [] = true
all_id_characters (c ∷ s) =
    (is_alphanumeric c || c == b'.' || c == b'_' || c == b'-') && all_id_characters s

-- `REQUEST_ID_PATTERN.test(value)`.
matches_request_id : Text → Bool
unfolding is_alphanumeric is_digit
matches_request_id [] = false
matches_request_id (c ∷ s) = is_alphanumeric c && all_id_characters s

is_valid_request_id : Text → Bool
unfolding matches_request_id
is_valid_request_id value =
    leb 8 (length value) && leb (length value) 64 && matches_request_id value

unfoldable pub correlation_id : Option Text → Option Text
unfolding is_valid_request_id matches_request_id all_id_characters is_alphanumeric is_digit
correlation_id none = none
correlation_id (some id) = if is_valid_request_id id then some id else none

-- The counts that are left when `now` may have crossed into a new window.
unfoldable pub current_counts : LimiterState → ℕ → List (Text × ℕ)
current_counts s window = elim s.active_window [
  | none ↦ []
  | some w ↦ if w == window then s.request_counts else []
]

module _ (limit window_ms : ℕ) where
  -- The test `count >= limit` and what follows it.
  unfoldable pub decide_count :
      List (Text × ℕ) → ℕ → Text → ℕ → Option Text → RateLimitDecision × LimiterState
  decide_count counts window key count request_id =
      if leb limit count
      then (
        rejected (correlation_id request_id),
        record { request_counts = counts; active_window = some window },
      )
      else (
        allowed,
        record { request_counts = set_count counts key (count + 1); active_window = some window },
      )

  unfoldable pub check : LimiterState → Request → ℕ → Option Text → RateLimitDecision × LimiterState
  unfolding decide_count current_counts
  check s request now request_id =
      let window = now / window_ms in
      let counts = current_counts s window in
      let key = client_ip request in
      decide_count counts window key (get_count counts key) request_id

-- `limiter ??= createRateLimiter()`.
get_rate_limiter : Option LimiterState → LimiterState
unfolding new_limiter
get_rate_limiter none = new_limiter
get_rate_limiter (some limiter) = limiter
