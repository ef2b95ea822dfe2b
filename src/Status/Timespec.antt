-- ===== src/Status/Timespec.antt =====
-- detail/utils.hpp: duration_to_grp_timespec. A duration is a signed count of nanoseconds.
use grpc_p.Base.{ℕ, suc, ◌+◌, ◌/◌, ◌<◌, ◌≤◌, ◌≡◌, arith}
use grpc_p.Base.Int.{ℤ, pos, negsuc, pos_part, neg_part, sub_ℕ, ◌-ℤ◌, ◌*ℤ◌, ◌+ℤ◌}

abbrev pub billion : ℕ
billion = 1_000_000_000

pub data ClockType : Type 0 where
  monotonic realtime precise timespan : ClockType

-- gpr_timespec
pub record Timespec : Type 0 where
  pub tv_sec : ℤ
  pub tv_nsec : ℤ
  pub clock_type : ClockType

-- `duration_cast<seconds>`: the quotient, towards zero.
unfoldable pub duration_cast : ℤ → ℤ
duration_cast (pos n) = pos (n / billion)
duration_cast (negsuc n) = sub_ℕ 0 (suc n / billion)

unfoldable pub duration_to_grp_timespec : ℤ → Timespec
unfolding duration_cast ◌-ℤ◌ ◌*ℤ◌
duration_to_grp_timespec delta =
    let seconds = duration_cast delta in
    record { tv_sec = seconds; tv_nsec = delta -ℤ seconds *ℤ pos billion; clock_type = monotonic }

-- The two fields are the duration again, the nanoseconds are less than a second either way (so they
-- fit the 32 bits of `tv_nsec`), and neither field has the sign opposite to the duration's.
pub duration_to_grp_timespec_lem :
    (delta : ℤ)
    → let t = duration_to_grp_timespec delta in
      (t.tv_sec *ℤ pos billion +ℤ t.tv_nsec ≡ delta)
      × (pos_part t.tv_nsec + neg_part t.tv_nsec < billion)
      × (pos_part t.tv_sec + pos_part t.tv_nsec ≤ pos_part delta)
      × (neg_part t.tv_sec + neg_part t.tv_nsec ≤ neg_part delta)
unfolding duration_to_grp_timespec ◌+ℤ◌
duration_to_grp_timespec_lem (pos n) = ground arith
duration_to_grp_timespec_lem (negsuc n) = ground arith
