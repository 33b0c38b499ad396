-- ===== src/Process/Terminator/Grace.antt =====
-- internal/process/terminator.go: `gracefulPolling`, the wait between SIGTERM and the count of those
-- that still run. Which processes run at each poll, and how long a poll takes, are answers of the
-- machine; times are in nanoseconds since the wait began.
use xmorph.Base.{
  ℕ, zero, suc, Bool, true, Option, none, some, List, [], ◌∷◌, ◌+◌, ◌/◌, ◌≤◌, ◌==◌, ◌||◌, not,
  if◌then◌else◌, ltb, any, ◌≡◌, refl, arith,
}
use xmorph.Base.Int.{ℤ}
use xmorph.Base.Polling
use xmorph.Base.Polling.{poll_until, poll_until_ends}

-- 100 milliseconds
abbrev pub grace_period : ℕ
grace_period = 100_000_000

unfoldable pub count_alive : (ℤ → Bool) → List ℤ → ℕ
count_alive runs [] = 0
count_alive runs (pid ∷ pids) =
    let alive = count_alive runs pids in if runs pid then alive + 1 else alive

module _ (timeout : ℕ) (took : ℕ → ℕ) (runs : ℕ → ℤ → Bool) (pids : List ℤ) where
  -- From the i-th poll: the number of the poll, or of the test of the deadline, at which it returns.
  -- `none` is out of fuel.
  unfoldable pub graceful_polling : ℕ → ℕ → ℕ → Option ℕ
  unfolding count_alive
  graceful_polling zero i now = none
  graceful_polling (suc fuel) i now =
      let later = graceful_polling fuel (suc i) (now + (took i + grace_period)) in
      if ltb now timeout then (if count_alive (runs i) pids == 0 then some i else later) else some i

  abbrev pub all_gone : ℕ → Bool
  all_gone i = not (any (runs i) pids)

  -- When the i-th poll begins.
  abbrev pub time : ℕ → ℕ
  time = Polling.time grace_period timeout took all_gone

  -- The deadline has passed, or none of the processes runs.
  abbrev pub is_last : ℕ → Bool
  is_last = Polling.is_last grace_period timeout took all_gone

  abbrev pub none_last : ℕ → ℕ → Bool
  none_last = Polling.none_last grace_period timeout took all_gone

  abbrev pub enough : ℕ
  enough = suc (timeout / grace_period + 1)

abbrev number_of : Option (Bool × ℕ) → Option ℕ
number_of none = none
number_of (some (ended, i)) = some i

count_alive-any :
    (runs : ℤ → Bool) (pids : List ℤ) → (count_alive runs pids == 0) ≡ not (any runs pids)
unfolding count_alive
count_alive-any runs [] = refl
count_alive-any runs (pid ∷ pids) = ground (arith, count_alive-any runs pids)

module _ (timeout : ℕ) (took : ℕ → ℕ) (runs : ℕ → ℤ → Bool) (pids : List ℤ) where
  graceful_polling-poll_until :
      (fuel i now : ℕ)
      → graceful_polling timeout took runs pids fuel i now
        ≡ number_of
            (poll_until grace_period timeout took (all_gone timeout took runs pids) fuel i now)
  unfolding graceful_polling poll_until
  graceful_polling-poll_until zero i now = refl
  graceful_polling-poll_until (suc fuel) i now =
      let later = graceful_polling-poll_until fuel (suc i) (now + (took i + grace_period)) in
      rw (count_alive-any (runs i) pids) (ground (arith, later))

  -- gracefulPolling returns, whatever the processes do and however long the polls take: at the first
  -- poll that begins at or after the deadline, or at which none of the processes runs; and that poll
  -- is at most one more than the timeout has whole tenths of a second.
  pub graceful_polling_ends :
      (n : ℕ) × (graceful_polling timeout took runs pids (enough timeout took runs pids) 0 0
        ≡ some n)
      × ((not (ltb (time timeout took runs pids n) timeout) || not (any (runs n) pids)) ≡ true)
      × (none_last timeout took runs pids n 0 ≡ true)
      × (n ≤ timeout / grace_period + 1)
  graceful_polling_ends =
      let (n, ends, last, before, bound) =
        poll_until_ends grace_period timeout took (all_gone timeout took runs pids) (omega arith) in
      (
        n,
        rw (graceful_polling-poll_until (enough timeout took runs pids) 0 0, ends) refl,
        last,
        before,
        bound,
      )
