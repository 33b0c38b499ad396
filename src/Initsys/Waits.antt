-- ===== src/Initsys/Waits.antt =====
-- The wait for systemd's jobs ends.
use xmorph.Base.{
  ℕ, zero, suc, Bool, true, Option, none, some, ◌&&◌, not, if◌then◌else◌, ◌+◌, ◌/◌, ◌≤◌, ltb, ◌≡◌,
  refl, arith,
}
use xmorph.Base.Polling
use xmorph.Base.Polling.{poll_until, poll_until_ends}
use xmorph.Base.Result.{ok, err}
use xmorph.Initsys.{
  Kind, is_systemd, services_timeout, wait_for_services_to_stop, Bus, poll_period, Waited, settled,
  timed_out, is_done, poll,
}

abbrev end_of : Option (Bool × ℕ) → Option (Waited × ℕ)
end_of none = none
end_of (some (ended, i)) = some (if ended then settled else timed_out, i)

module _ (b : Bus) (timeout : ℕ) where
  abbrev ends_at : ℕ → Bool
  ends_at i = is_done (b.job_count i)

  -- When the i-th poll begins.
  abbrev pub time : ℕ → ℕ
  time = Polling.time poll_period timeout b.took ends_at

  -- The deadline has passed, or the poll ends the loop.
  abbrev pub is_last : ℕ → Bool
  is_last = Polling.is_last poll_period timeout b.took ends_at

  -- None of the n polls from i on is the last.
  abbrev pub none_last : ℕ → ℕ → Bool
  none_last = Polling.none_last poll_period timeout b.took ends_at

  -- Enough for polls of at least half a second each.
  abbrev pub enough : ℕ
  enough = suc (timeout / poll_period + 1)

  poll-poll_until :
      (fuel i now : ℕ)
      → poll b timeout fuel i now
        ≡ end_of (poll_until poll_period timeout b.took ends_at fuel i now)
  unfolding poll poll_until
  poll-poll_until zero i now = refl
  poll-poll_until (suc fuel) i now =
      ground (arith, poll-poll_until fuel (suc i) (now + (b.took i + poll_period)))

  wait-poll_until :
      (k : Kind) (m : ℕ)
      → poll_until poll_period timeout b.took ends_at enough 0 0 ≡ some (ltb (time m) timeout, m)
      → wait_for_services_to_stop enough k b timeout
        ≡ some (
            if is_systemd k && b.connects && not (ltb (time m) timeout)
            then err services_timeout
            else ok tt)
  unfolding wait_for_services_to_stop
  wait-poll_until k m e = ground (arith, e, poll-poll_until enough 0 0)

  -- WaitForServicesToStop returns: within the fuel there is a first poll that either starts at or
  -- after the deadline or finds no jobs or cannot be answered. It returns an error exactly if the
  -- init is systemd, its bus connects, and that poll is past the deadline, whatever time the polls
  -- take. It is at most one more than the timeout has whole half seconds.
  pub wait_for_services_to_stop_ends :
      (k : Kind)
      → (n : ℕ) × (wait_for_services_to_stop enough k b timeout
          ≡ some (
              if is_systemd k && b.connects && not (ltb (time n) timeout)
              then err services_timeout
              else ok tt))
        × (is_last n ≡ true)
        × (none_last n 0 ≡ true)
        × (n ≤ timeout / poll_period + 1)
  wait_for_services_to_stop_ends k =
      let (m, ends, last, before, bound) =
        poll_until_ends poll_period timeout b.took ends_at (omega arith) in
      (m, wait-poll_until k m ends, last, before, bound)
