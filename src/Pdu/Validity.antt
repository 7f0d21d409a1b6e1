-- ===== src/Pdu/Validity.antt =====
-- The relative validity period of GSM 03.40 and `pdu_relative_validity`.
use datacard.Base.{ℕ, ◌+◌, ◌-◌, ◌*◌, ◌≤◌, ◌<◌, arith, leb, if◌then◌else◌}
use datacard.Pdu.{relative_validity}

-- The minutes that a value stands for.
abbrev pub period : ℕ → ℕ
period vp =
    if leb vp 143
    then (vp + 1) * 5
    else if leb vp 167
    then 720 + (vp - 143) * 30
    else if leb vp 196
    then (vp - 166) * 1440
    else (vp - 192) * 10080

-- The value for a number of minutes that the format can express is one octet. Its period is not
-- shorter than the minutes, and the period of the value below it is.
pub relative_validity-period :
    (minutes : ℕ)
    → 0 < minutes
    → minutes ≤ 635040
    → let vp = relative_validity minutes in
      (vp ≤ 255) × (minutes ≤ period vp) × (0 < vp → period (vp - 1) < minutes)
unfolding relative_validity
relative_validity-period minutes p h = ground arith
