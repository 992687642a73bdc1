-- ===== src/Router/Nodes/Dated.antt =====
-- `relativeTime` of internal/router/nodes.go: which time its words stand for.
use red_engine.Prelude.{ℕ, ◌+◌, ◌-◌, ◌*◌, ◌≤◌, ◌<◌, some, arith}
use red_engine.Router.Nodes.{Ago, never, just_now, min_ago, hr_ago, days_ago, ago, relative_time}

-- The seconds between which the time lies that the words stand for.
abbrev pub Means : ℕ → Ago → Type 0
Means d never = ⊥
Means d just_now = d < 60
Means d (min_ago m) = (1 ≤ m) × (m < 60) × (60 * m ≤ d) × (d < 60 * (m + 1))
Means d (hr_ago h) = (1 ≤ h) × (h < 24) × (3600 * h ≤ d) × (d < 3600 * (h + 1))
Means d (days_ago n) = (1 ≤ n) × (86400 * n ≤ d) × (d < 86400 * (n + 1))

-- For a peer that was seen, at no later time than now, the words give the whole minutes below 60,
-- the whole hours below 24, or the whole days that have gone since then; a time below a minute is
-- "just now", and that of a clock ahead too.
pub relative_time-Means : (now t : ℕ) → Means (now - t) (relative_time now (some t))
unfolding relative_time ago
relative_time-Means now t = ground arith
