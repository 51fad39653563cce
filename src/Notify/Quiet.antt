-- ===== src/Notify/Quiet.antt =====
-- The quiet hours as an interval on the clock.
use nodus_hitl_hub.Base.{arith, true, ℕ, ◌%◌, ◌+◌, ◌-◌, ◌<◌, ◌↔◌, ◌≡◌, ◌≢◌, ◌≤◌}
use nodus_hitl_hub.Base.Int.{pos}
use nodus_hitl_hub.Notify.Defs.{outside_quiet}

-- For hours of the day, a channel outside its quiet hours is one whose bounds differ and where the
-- hours that have passed since the start, round the clock, are at least the length of the interval:
-- the two cases of the code are the one interval, also across midnight.
pub outside_quiet_iff :
    (s e h : ℕ)
    → s < 24
    → e < 24
    → h < 24
    → (outside_quiet (pos s) (pos e) h ≡ true) ↔ ((s ≢ e) × ((e + 24 - s) % 24 ≤ (h + 24 - s) % 24))
unfolding outside_quiet
outside_quiet_iff s e h hs he hh = (λ q. (λ p. ground arith, ground arith), λ q. ground arith)
