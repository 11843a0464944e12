-- ===== src/Stream/Clock.antt =====
-- dbsync/utils.c 802-834, 980-1024, 1452-1480 and 1664-1678: the clock of the streaming loop. A
-- timestamp counts the microseconds since 2000; the times that are modelled are not before it.
use rds_dbsync.Base.{
  ℕ, ◌+◌, ◌-◌, ◌*◌, ◌/◌, ◌%◌, ◌<◌, ◌≤◌, ◌≡◌, Option, none, some, arith, leb, ltb, ◌==◌,
  if◌then◌else◌, Bool-cases, inl, inr, guard_inv, subst,
}

abbrev pub usecs_per_sec : ℕ
usecs_per_sec = 1000000

-- The seconds between 1970 and 2000, `(POSTGRES_EPOCH_JDATE - UNIX_EPOCH_JDATE) * SECS_PER_DAY`.
abbrev pub epoch_secs : ℕ
epoch_secs = (2451545 - 2440588) * 86400

-- From `tv_sec` and `tv_usec`.
unfoldable pub fe_get_current_timestamp : ℕ → ℕ → ℕ
fe_get_current_timestamp tv_sec tv_usec = (tv_sec - epoch_secs) * usecs_per_sec + tv_usec

unfoldable pub timestamptz_to_time_t : ℕ → ℕ
timestamptz_to_time_t t = t / usecs_per_sec + epoch_secs

-- `secs` and `microsecs`.
unfoldable pub fe_timestamp_difference : ℕ → ℕ → ℕ × ℕ
fe_timestamp_difference start_time stop_time =
    let diff = stop_time - start_time in
    if leb stop_time start_time then (0, 0) else (diff / usecs_per_sec, diff % usecs_per_sec)

-- `message_target`, from `last_status`, which stands one higher so that -1 is 0.
abbrev pub message_target : ℕ → ℕ → ℕ
message_target standby_message_timeout last_status =
    if standby_message_timeout == 0
    then 0
    else last_status + (standby_message_timeout - 1) * 1000 - 1

abbrev at_least_one : ℕ × ℕ → ℕ × ℕ
at_least_one (secs, usecs) = (if secs == 0 then 1 else secs, usecs)

-- The `timeout` of `select`; `none` waits for data only.
unfoldable pub select_timeout : ℕ → ℕ → ℕ → Option (ℕ × ℕ)
select_timeout standby_message_timeout last_status now =
    let target = message_target standby_message_timeout last_status in
    if ltb 0 target then some (at_least_one (fe_timestamp_difference now target)) else none

-- The `delay` of `pg_sleep`, if it sleeps.
unfoldable pub pg_sleep : ℕ → Option (ℕ × ℕ)
pg_sleep microsec = if ltb 0 microsec then some (microsec / 1000000, microsec % 1000000) else none

-- The second of a timestamp that the clock gave is that of the clock.
pub timestamptz_to_time_t-fe_get_current_timestamp :
    (tv_sec tv_usec : ℕ)
    → epoch_secs ≤ tv_sec
    → tv_usec < usecs_per_sec
    → timestamptz_to_time_t (fe_get_current_timestamp tv_sec tv_usec) ≡ tv_sec
unfolding timestamptz_to_time_t fe_get_current_timestamp
timestamptz_to_time_t-fe_get_current_timestamp tv_sec tv_usec h small = omega arith

-- A wait of these seconds and microseconds from `now` on.
abbrev Reaches : ℕ → ℕ → ℕ × ℕ → Type 0
Reaches now target (secs, usecs) =
    (1 ≤ secs) × (usecs < usecs_per_sec) × (target ≤ now + secs * usecs_per_sec + usecs)

wait_lem : (now target : ℕ) → Reaches now target (at_least_one (fe_timestamp_difference now target))
unfolding fe_timestamp_difference
wait_lem now target = elim (Bool-cases (leb target now)) [
  | inl past ↦ rw past (omega arith, omega arith, ground arith)
  | inr ahead ↦ rw ahead (split_lem (target - now) (ground arith))
]
  where
    split_lem :
        (diff : ℕ)
        → now + diff ≡ target
        → Reaches now target (at_least_one (diff / usecs_per_sec, diff % usecs_per_sec))
    split_lem diff e = elim (Bool-cases (diff / usecs_per_sec == 0)) [
      | inl short ↦ rw short (omega arith, omega arith, ground arith)
      | inr long ↦ rw long (ground arith, omega arith, omega arith)
    ]

-- The loop never waits for less than a second, and does not wake before the time at which a status is
-- wanted.
pub select_timeout_bounds :
    (standby_message_timeout last_status now secs usecs : ℕ)
    → select_timeout standby_message_timeout last_status now ≡ some (secs, usecs)
    → (1 ≤ secs)
      × (usecs < usecs_per_sec)
      × (message_target standby_message_timeout last_status ≤ now + secs * usecs_per_sec + usecs)
unfolding select_timeout
select_timeout_bounds standby_message_timeout last_status now secs usecs h =
    let target = message_target standby_message_timeout last_status in
    let w = wait_lem now target in
    let p = at_least_one (fe_timestamp_difference now target) in
    let e : p ≡ (secs, usecs) = (guard_inv (ltb 0 target) p (secs, usecs) h).1 in
    subst (Reaches now target) e w
