-- ===== src/Metrics/Examples.antt =====
-- The collectors at concrete calls.
use das_multi_device.Prelude.{[], ◌∷◌, ◌≡◌, refl}
use das_multi_device.Metrics.{
  look, make, call_steps, new_collector, get_lark_text_notify_str, send_lark_err_notify,
}
use das_multi_device.Metrics.Race.{looks, Made, panicked-call_steps}

-- Two calls look before either makes the collector, and both make one.
panicked-call_steps_example :
    Made 1 (call_steps (look ∷ look ∷ make ∷ make ∷ look ∷ []) new_collector)
unfolding looks
panicked-call_steps_example = panicked-call_steps 1 (make ∷ look ∷ [])

-- One call after another returns.
call_steps-test : (call_steps (look ∷ make ∷ look ∷ look ∷ []) new_collector).panicked ≡ 0
unfolding call_steps
call_steps-test = refl

-- What the parser counts for a transaction that its handler could not take.
send_lark_err_notify-test :
    send_lark_err_notify "Block Parse"
      (get_lark_text_notify_str "TransactionHandle" "0xaa" "bad")
      []
    ≡ (("Block Parse", "func：TransactionHandle\nkey：0xaa\nerror：bad") ∷ [])
unfolding send_lark_err_notify get_lark_text_notify_str
send_lark_err_notify-test = refl
