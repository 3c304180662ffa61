-- ===== src/RateLimiter/Totals.antt =====
-- lib/api/rateLimiter.ts: how many requests a window allows in all, while the clock does not go back.
use stellar_core.Prelude.{
  ℕ, ◌+◌, ◌/◌, ◌≤◌, ◌<◌, min, ◌≡◌, refl, inl, inr, ◌&&◌, List, [], ◌∷◌, arith, leb, ◌==◌,
  if◌then◌else◌, ==_iff, Bool-cases, zero, suc,
}
use stellar_core.Prelude.Predicates.{All-mono, All, count_by}
use stellar_core.Prelude.Text.{Text, text_eq, text_eq_iff}
use native.Mathlib.Nat.{div-mul-le_self, le-div_iff_mul-le}
use stellar_core.RateLimiter.{client_ip, check}
use stellar_core.RateLimiter.Windows.{
  Arrival, allowed_weight, requests_in_window, state_after, allowed_weight-check,
}

-- No request is older than the one before it.
abbrev pub IsOrdered : List Arrival → Type 0
IsOrdered [] = Unit
IsOrdered (a ∷ history) = All (λ b. b.now ≤ a.now) history × IsOrdered history

div_mono : (window_ms a b : ℕ) → a ≤ b → a / window_ms ≤ b / window_ms
div_mono zero a b h = omega (arith, h)
div_mono (suc n) a b h =
    let whole = div-mul-le_self a (suc n) in
    (le-div_iff_mul-le {k = suc n} {x = a / suc n} {y = b} (omega arith)).1
      (omega (arith, whole, h))

module _ (window_ms : ℕ) where
  -- All the requests of a client that fell into the window.
  abbrev pub requests_of_window : List Arrival → Text → ℕ → ℕ
  requests_of_window history client window =
      count_by (λ a. (a.now / window_ms == window) && text_eq (client_ip a.request) client) history

  -- None of the requests is in a later window than all of them.
  none_later :
      (history : List Arrival) (client : Text) (window bound : ℕ)
      → All (λ b. b.now ≤ bound) history
      → bound / window_ms < window
      → requests_of_window history client window ≡ 0
  none_later [] client window bound h l = refl
  none_later (a ∷ history) client window bound (h, hs) l =
      let earlier = div_mono window_ms a.now bound h in
      ground (arith, earlier, l, none_later history client window bound hs l)

  latest_window :
      (history : List Arrival) (client : Text) (window : ℕ)
      → IsOrdered history
      → All (λ b. b.now / window_ms ≤ window) history
      → requests_in_window window_ms history client window
        ≡ requests_of_window history client window
  unfolding requests_in_window
  latest_window [] client window o h = refl
  latest_window (a ∷ history) client window (o, os) (h, hs) =
      elim (Bool-cases (a.now / window_ms == window)) [
        | inl same ↦ rw (same, latest_window history client window os hs) refl
        | inr other ↦
            let below : a.now / window_ms < window = ground (arith, h, other) in
            rw (other, none_later history client window a.now o below) refl
      ]

module _ (limit window_ms : ℕ) where
  -- All the requests of a client that fell into the window and were allowed.
  unfoldable pub allowed_of_window : List Arrival → Text → ℕ → ℕ
  allowed_of_window [] client window = 0
  allowed_of_window (a ∷ history) client window =
      let rest = allowed_of_window history client window in
      let r =
        check limit window_ms (state_after limit window_ms history) a.request a.now a.request_id in
      (if (a.now / window_ms == window) && text_eq (client_ip a.request) client
        then allowed_weight r.0
        else 0)
      + rest

  weight_step :
      (rest : ℕ) → (if leb limit rest then 0 else 1) + min limit rest ≡ min limit (1 + rest)
  weight_step rest = ground arith

  -- While the clock does not go back, each client is allowed, in every window, all its requests up
  -- to the limit and none after it: over the whole history the number allowed is the smaller of the
  -- limit and of the number of its requests in the window.
  pub allowed_of_window-eq-min :
      (history : List Arrival) (client : Text) (window : ℕ)
      → IsOrdered history
      → allowed_of_window history client window
        ≡ min limit (requests_of_window window_ms history client window)
  unfolding allowed_of_window
  allowed_of_window-eq-min [] client window o = omega arith
  allowed_of_window-eq-min (a ∷ history) client window (o, os) =
      let w = a.now / window_ms in
      let key = client_ip a.request in
      let ih = allowed_of_window-eq-min history client window os in
      elim (Bool-cases (w == window)) [
        | inr other ↦ rw (other, ih) (omega arith)
        | inl same ↦ elim (Bool-cases (text_eq key client)) [
          | inr is_other ↦ rw (same, is_other, ih) (omega arith)
          | inl is_client ↦
              let earlier =
                All-mono _ (λ b. b.now / window_ms ≤ w) history
                  (λ b h. div_mono window_ms b.now a.now h) o in
              let trailing = latest_window window_ms history key w os earlier in
              let weight =
                allowed_weight-check limit window_ms history a.request a.now a.request_id in
              let step = weight_step (requests_of_window window_ms history client window) in
              let eq = (==_iff w window).0 same in
              let key_eq = (text_eq_iff key client).0 is_client in
              rw (same, is_client, weight, trailing, ih, key_eq, eq, step)
        ]
      ]
