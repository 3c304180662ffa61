-- ===== src/RateLimiter/Windows.antt =====
-- lib/api/rateLimiter.ts: what the limiter allows after any sequence of requests. A history lists
-- the requests that were checked, the newest first.
use stellar_core.Prelude.{
  ℕ, ◌+◌, ◌/◌, ◌≡◌, inl, inr, false, Option, List, [], ◌∷◌, leb, ◌==◌, if◌then◌else◌, Bool-cases,
  min, sym, some, refl, arith, ==_iff, ◌<◌, ◌↔◌,
}
use stellar_core.Prelude.Text.{Text, text_eq, text_eq_iff, text_eq_refl}
use stellar_core.RateLimiter.{
  Request, allowed, rejected, LimiterState, new_limiter, client_ip, get_count, set_count,
  decide_count, check, RateLimitDecision, current_counts,
}

pub record Arrival : Type 0 where
  pub request : Request
  pub now : ℕ
  pub request_id : Option Text

get_count-set_count_same :
    (counts : List (Text × ℕ)) (key : Text) (n : ℕ) → get_count (set_count counts key n) key ≡ n
unfolding get_count set_count
get_count-set_count_same [] key n = rw (text_eq_refl key)
get_count-set_count_same ((k, m) ∷ counts) key n = elim (Bool-cases (text_eq k key)) [
  | inl e ↦ rw (e, e)
  | inr e ↦ rw (e, e, get_count-set_count_same counts key n)
]

get_count-set_count_other :
    (counts : List (Text × ℕ)) (key other : Text) (n : ℕ)
    → text_eq key other ≡ false
    → get_count (set_count counts key n) other ≡ get_count counts other
unfolding get_count set_count
get_count-set_count_other [] key other n d = rw d
get_count-set_count_other ((k, m) ∷ counts) key other n d = elim (Bool-cases (text_eq k key)) [
  | inl e ↦ let same = (text_eq_iff k key).0 e in rw (e, same, d)
  | inr e ↦ rw (e, get_count-set_count_other counts key other n d)
]

unfoldable pub allowed_weight : RateLimitDecision → ℕ
allowed_weight allowed = 1
allowed_weight (rejected _) = 0

module _ (window_ms : ℕ) where
  -- The requests of a client in the latest consecutive requests that fell into the window.
  unfoldable pub requests_in_window : List Arrival → Text → ℕ → ℕ
  requests_in_window [] client window = 0
  requests_in_window (a ∷ history) client window =
      let rest = requests_in_window history client window in
      if a.now / window_ms == window
      then (if text_eq (client_ip a.request) client then 1 else 0) + rest
      else 0

module _ (limit window_ms : ℕ) where
  unfoldable pub state_after : List Arrival → LimiterState
  state_after [] = new_limiter
  state_after (a ∷ history) =
      (check limit window_ms (state_after history) a.request a.now a.request_id).1

  counts_after : RateLimitDecision × LimiterState → Text → ℕ
  counts_after r client = get_count (r.1).request_counts client

  -- One request adds one to its client's count below the limit, and nothing else.
  get_count-decide_count :
      (counts : List (Text × ℕ)) (window : ℕ) (key client : Text) (request_id : Option Text) (n : ℕ)
      → get_count counts key ≡ n
      → counts_after (decide_count limit window_ms counts window key n request_id) client ≡ (
          if text_eq key client
          then (if leb limit n then n else n + 1)
          else get_count counts client)
  unfolding decide_count counts_after
  get_count-decide_count counts window key client request_id n e = elim (Bool-cases (leb limit n)) [
    | inl full ↦ elim (Bool-cases (text_eq key client)) [
      | inl same ↦ let eq = (text_eq_iff key client).0 same in rw (full, same, sym eq, e)
      | inr other ↦ rw (full, other)
    ]
    | inr free ↦ elim (Bool-cases (text_eq key client)) [
      | inl same ↦
          let eq = (text_eq_iff key client).0 same in
          rw (free, same, sym eq, get_count-set_count_same counts key (n + 1))
      | inr other ↦ rw (free, other, get_count-set_count_other counts key client (n + 1) other)
    ]
  ]

  active_window-decide_count :
      (counts : List (Text × ℕ)) (window : ℕ) (key : Text) (request_id : Option Text) (n : ℕ)
      → ((decide_count limit window_ms counts window key n request_id).1).active_window
        ≡ some window
  unfolding decide_count
  active_window-decide_count counts window key request_id n = elim (Bool-cases (leb limit n)) [
    | inl e ↦ rw e
    | inr e ↦ rw e
  ]

  current_counts_split :
      (s : LimiterState) (w window : ℕ)
      → s.active_window ≡ some w
      → current_counts s window ≡ (if w == window then s.request_counts else [])
  unfolding current_counts
  current_counts_split s w window e = rw e

  min_count :
      (n rest : ℕ) → n ≡ min limit rest → (if leb limit n then n else n + 1) ≡ min limit (1 + rest)
  min_count n rest e = ground arith

  -- One request keeps the counts equal to the numbers of requests, cut off at the limit.
  counts_step :
      (counts : List (Text × ℕ)) (w window : ℕ) (key client : Text) (request_id : Option Text)
      (rest : Text → ℕ)
      → (w ≡ window → (c : Text) → get_count counts c ≡ min limit (rest c))
      → get_count
          (current_counts
            (decide_count limit window_ms counts w key (get_count counts key) request_id).1
            window)
          client
        ≡ min limit (if w == window then (if text_eq key client then 1 else 0) + rest client else 0)
  unfolding counts_after get_count
  counts_step counts w window key client request_id rest ih =
      let n = get_count counts key in
      let after = (decide_count limit window_ms counts w key n request_id).1 in
      let active = active_window-decide_count counts w key request_id n in
      let split = current_counts_split after w window active in
      let moved = get_count-decide_count counts w key client request_id n refl in
      elim (Bool-cases (w == window)) [
        | inr other ↦ rw (split, other) (omega arith)
        | inl same ↦
            let counted = ih ((==_iff w window).0 same) in
            elim (Bool-cases (text_eq key client)) [
              | inl is_client ↦
                  let key_eq = (text_eq_iff key client).0 is_client in
                  let step = min_count n (rest key) (counted key) in
                  rw (split, same, moved, is_client, step, key_eq)
              | inr is_other ↦ rw (split, same, moved, is_other, counted client) (omega arith)
            ]
      ]

  -- The counts of the limiter are the requests of the window, cut off at the limit.
  get_count-state_after :
      (history : List Arrival) (client : Text) (window : ℕ)
      → get_count (current_counts (state_after history) window) client
        ≡ min limit (requests_in_window window_ms history client window)
  unfolding state_after requests_in_window check new_limiter get_count current_counts
  get_count-state_after [] client window = omega arith
  get_count-state_after (a ∷ history) client window =
      let w = a.now / window_ms in
      let rest : Text → ℕ = λ c. requests_in_window window_ms history c window in
      counts_step (current_counts (state_after history) w) w window (client_ip a.request) client
        a.request_id rest (λ e c. rw (e, get_count-state_after history c window))

  -- After any sequence of requests the next one is allowed exactly when its client made fewer than
  -- `limit` requests in the latest consecutive requests that fell into the same window, whatever
  -- other clients did.
  pub check-allowed_iff :
      (history : List Arrival) (request : Request) (now : ℕ) (request_id : Option Text)
      → ((check limit window_ms (state_after history) request now request_id).0 ≡ allowed)
        ↔ (requests_in_window window_ms history (client_ip request) (now / window_ms) < limit)
  unfolding check decide_count
  check-allowed_iff history request now request_id =
      let counted = get_count-state_after history (client_ip request) (now / window_ms) in
      ground (arith, counted)

  pub allowed_weight-check :
      (history : List Arrival) (request : Request) (now : ℕ) (request_id : Option Text)
      → allowed_weight (check limit window_ms (state_after history) request now request_id).0 ≡ (
          if leb limit (requests_in_window window_ms history (client_ip request) (now / window_ms))
          then 0
          else 1)
  unfolding check decide_count allowed_weight
  allowed_weight-check history request now request_id =
      let counted = get_count-state_after history (client_ip request) (now / window_ms) in
      ground (arith, counted)
