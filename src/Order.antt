-- ===== src/Order.antt =====
-- internal/service/helper.go, IsMoreRecentEvent and IsMoreRecent: which of two events wins.
pub mod Laws
use go_m_layer.Prelude.{
  ℕ, zero, suc, ◌-◌, ◌^◌, Bool, true, false, ◌&&◌, ltb, ◌==◌, if◌then◌else◌, Str, str_lt, is_empty,
  not,
}
use go_m_layer.Entities.Ids.{ℤ, pos, negsuc}

-- int(u) of a uint64
unfoldable pub int_of_uint64 : ℕ → ℤ
int_of_uint64 u = if ltb u (2 ^ 63) then pos u else negsuc (2 ^ 64 - u - 1)

unfoldable pub ltb_ℤ : ℤ → ℤ → Bool
ltb_ℤ (pos a) (pos b) = ltb a b
ltb_ℤ (pos a) (negsuc b) = false
ltb_ℤ (negsuc a) (pos b) = true
ltb_ℤ (negsuc a) (negsuc b) = ltb b a

unfoldable pub is_more_recent_event : Str → ℤ → Str → ℤ → Bool
is_more_recent_event old_hash old_timestamp recent_hash recent_timestamp =
    if ltb_ℤ old_timestamp recent_timestamp
    then true
    else if ltb_ℤ recent_timestamp old_timestamp
    then false
    else if str_lt old_hash recent_hash
    then true
    else if str_lt recent_hash old_hash
    then false
    else false

-- The two results, (isMoreRecent, markAsSynced). The tests follow one another, as in the source.
unfoldable pub is_more_recent : Str → Str → ℕ → Str → ℕ → Bool → Bool × Bool
is_more_recent state_event_id state_hash state_timestamp hash timestamp marked =
    let initial = false in
    let later = if ltb state_timestamp timestamp then true else initial in
    let by_time = if ltb timestamp state_timestamp then false else later in
    if state_timestamp == timestamp
    then (if is_empty state_event_id then (by_time, false) else (
      let by_hash = if str_lt state_hash hash then true else by_time in
          if str_lt hash state_hash then false else by_hash,
      marked,
    ))
    else (by_time, marked)
