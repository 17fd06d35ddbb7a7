-- ===== src/Service/Process/Checks/Time.antt =====
-- The test of the payload's time, on 64-bit numbers that wrap around.
use go_m_layer.Prelude.{◌≡◌, ◌↔◌, arith, ◌+◌, ◌-◌, ◌^◌, ◌≤◌, ◌<◌, true, false}
use go_m_layer.Entities.Records.{Event}
use go_m_layer.Service.Process.Checks.{out_of_time}

-- Away from both ends of the 64-bit numbers, the test lets pass exactly the payloads whose time differs
-- from the event's by at most fifteen seconds.
pub out_of_time_iff :
    (e : Event)
    → 15000 ≤ e.timestamp
    → e.timestamp + 15000 < 2 ^ 64
    → (out_of_time e ≡ false)
      ↔ ((e.payload.timestamp ≤ e.timestamp + 15000) × (e.timestamp ≤ e.payload.timestamp + 15000))
unfolding out_of_time
out_of_time_iff e low high = (λ h. (ground arith, ground arith), λ (p, q). ground arith)

-- In the first fifteen seconds the subtraction wraps around, and every payload of a time below the
-- wrapped bound is refused, those of the event's own time included.
pub out_of_time_early :
    (e : Event) → e.timestamp < 15000 → e.payload.timestamp < 2 ^ 64 - 15000 → out_of_time e ≡ true
unfolding out_of_time
out_of_time_early e early small = ground arith
