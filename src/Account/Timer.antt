-- ===== src/Account/Timer.antt =====
-- When a code can be sent again: console/src/hooks/resendTimer.ts.
use nfx_edge.Common.{ℕ, zero, suc, ◌-◌, ◌≤◌, ◌≡◌, ◌↔◌, ap, ◌∙◌, true, arith}
use nfx_edge.Account.{tick, can_resend, ticks}

tick_one : (n : ℕ) → tick n ≡ n - 1
unfolding tick
tick_one n = ground arith

left_after : (k n : ℕ) → ticks k n ≡ n - k
unfolding ticks
left_after zero n = omega arith
left_after (suc k) n = left_after k (tick n) ∙ ap (λ m. m - k) (tick_one n) ∙ omega arith

none_left : (m : ℕ) → (can_resend m ≡ true) ↔ (m ≤ 0)
unfolding can_resend
none_left m = ground arith

-- After a timer of some seconds was started, a code can be sent again exactly once that many seconds
-- have passed, and it stays so.
can_resend-ticks : (k n : ℕ) → (can_resend (ticks k n) ≡ true) ↔ (n ≤ k)
can_resend-ticks k n =
    rw (left_after k n)
      (λ h. omega (arith, (none_left (n - k)).0 h), λ h. (none_left (n - k)).1 (omega (arith, h)))
