-- ===== src/Position/Queue/Execute/Tests.antt =====
-- The emergency close at a concrete task.
use adviser_ai_constructor.Prelude.{◌≡◌, refl, true, false, Option, some, none, []}
use adviser_ai_constructor.Float.{◌⊑◌, min_f, abs}
use adviser_ai_constructor.Float.Fixed.{ℤ, pos, negsuc, fixed, fixed-IsOrdered}
use adviser_ai_constructor.Text.{codes}
use adviser_ai_constructor.Position.Queue.Task.{
  sell, num, text, order_side, symbol, side, full_quantity, client_order_id, Params, Format,
  emergency_close, emergency_market_close, OrderTask, to_float,
}
use adviser_ai_constructor.Position.Queue.Execute.{
  ok, close_part, snapshot, is_flat, live_size, execute_task,
}
use adviser_ai_constructor.Position.Queue.Execute.Emergency.{
  emergency-within_live, emergency-closes,
}

-- A stand-in for the formats of Python, which no emergency close reads here.
instance abbrev no_format : Format ℤ
no_format = record { format_10g = λ x. []; show = λ v. []; parse_float = λ t. none }

abbrev close_params : Params ℤ
close_params symbol = some (text (codes "BTC"))
close_params side = some (order_side sell)
close_params client_order_id = some (text (codes "id"))
close_params full_quantity = some (num (pos 5000000000))
close_params _ = none

abbrev no_side_params : Params ℤ
no_side_params symbol = some (text (codes "BTC"))
no_side_params full_quantity = some (num (pos 5000000000))
no_side_params _ = none

abbrev close_task : Params ℤ → OrderTask ℤ
close_task params = record {
  priority = emergency_close;
  created_at = pos 0;
  position_id = codes "7";
  action = emergency_market_close;
  params = params;
  retry_count = 0;
  max_retries = 3;
}

abbrev no_price : Option ℤ
no_price = none

-- A short position of 3.
abbrev live_value : ℤ
live_value = negsuc 2999999999

emergency-closes_example :
    execute_task (close_task close_params) (codes "e") (snapshot (num live_value))
    ≡ ok (
        close_part
          (codes "BTC")
          sell
          (min_f (pos 5000000000) (abs live_value))
          (codes "id")
          (codes "market")
          none)
emergency-closes_example =
    emergency-closes (close_task close_params) (codes "e") live_value (pos 5000000000) b'B' b'i'
      (codes "TC") (codes "d") sell refl refl refl refl refl refl refl

emergency-within_live_example :
    ((pos 3000000000 ⊑ pos 3000000000) ≡ true)
    × (is_flat (snapshot (num live_value)) ≡ false)
    × (codes "market" ≡ codes "market")
    × (no_price ≡ none)
emergency-within_live_example =
    emergency-within_live fixed-IsOrdered (close_task close_params) (codes "e")
      (snapshot (num live_value)) (pos 3000000000) refl (unfold live_size to_float in refl)
      emergency-closes_example
