-- ===== src/Tests/Facts.antt =====
-- One concrete instance of each of the other theorems.
use go_m_layer.Prelude.{
  ◌≡◌, refl, true, false, ◌↔◌, ◌≤◌, ◌+◌, arith, All, length, [], ◌∷◌, ◌++◌, ok, str, str_has_eq,
  str_lt,
}
use go_m_layer.Encoding.{number_to_byte, number_from_byte}
use go_m_layer.Entities.Ids.{pos}
use go_m_layer.Order.{is_more_recent_event, ltb_ℤ}
use go_m_layer.Order.Laws.{
  is_more_recent_event_irrefl, is_more_recent_event_trans, is_more_recent_event_total,
}
use go_m_layer.Service.Process.Checks.{out_of_time}
use go_m_layer.Service.Process.Checks.Time.{out_of_time_iff, out_of_time_early}
use go_m_layer.Entities.Records.{zero_event}
use go_m_layer.Encoding.RoundTrip.{number_from_byte-number_to_byte, str_lt-number_to_byte, IsByte}
use go_m_layer.Tests.Data.{plain, an_event}

is_more_recent_event_irrefl_example :
    is_more_recent_event (str "a1") (pos 5) (str "a1") (pos 5) ≡ false
is_more_recent_event_irrefl_example = is_more_recent_event_irrefl (str "a1") (pos 5)

is_more_recent_event_trans_example :
    is_more_recent_event (str "a1") (pos 5) (str "a0") (pos 6) ≡ true
unfolding is_more_recent_event ltb_ℤ str_lt
is_more_recent_event_trans_example =
    is_more_recent_event_trans (str "a1") (str "b1") (str "a0") (pos 5) (pos 5) (pos 6) refl refl

is_more_recent_event_total_example : (str "a1" ≡ str "a1") × (pos 5 ≡ pos 5)
unfolding is_more_recent_event ltb_ℤ str_lt
is_more_recent_event_total_example =
    is_more_recent_event_total (str "a1") (str "a1") (pos 5) (pos 5) refl refl

out_of_time_iff_example : (out_of_time an_event ≡ false) ↔ (
    (an_event.payload.timestamp ≤ an_event.timestamp + 15000)
    × (an_event.timestamp ≤ an_event.payload.timestamp + 15000))
out_of_time_iff_example = out_of_time_iff an_event (omega arith) (omega arith)

out_of_time_early_example : out_of_time (record zero_event { timestamp = 9 }) ≡ true
out_of_time_early_example =
    out_of_time_early (record zero_event { timestamp = 9 }) (omega arith) (omega arith)

number_from_byte-number_to_byte_example :
    (number_from_byte (number_to_byte 258 ++ (7 ∷ [])) ≡ ok 258)
    × All IsByte (number_to_byte 258)
    × (length (number_to_byte 258) ≡ 8)
number_from_byte-number_to_byte_example = number_from_byte-number_to_byte 258 (7 ∷ []) (omega arith)

str_lt-number_to_byte_example : str_lt (number_to_byte 255) (number_to_byte 256) ≡ true
str_lt-number_to_byte_example = str_lt-number_to_byte 255 256 (omega arith) (omega arith)
