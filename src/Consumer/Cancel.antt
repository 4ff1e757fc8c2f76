-- ===== src/Consumer/Cancel.antt =====
-- `_basic_cancel` and `_basic_consume` on a closed connection.
use librabbitmq.Base.{◌≡◌, false, Option, none, some, arith}
use librabbitmq.Base.Cmd.{ok}
use librabbitmq.World.{World}
use librabbitmq.World.Calls.{raised}
use librabbitmq.Synchronous.Clean.{refused, closed_error, opened_closed}
use librabbitmq.Errors.{not_connected}
use librabbitmq.Consumer.{CancelArgs, basic_cancel_method, ConsumeArgs, basic_consume_method}

cancel_unconnected :
    (cancel : Option CancelArgs) (w : World)
    → w.self.connected ≡ false
    → basic_cancel_method cancel w ≡ ok (some tt) (raised closed_error w)
unfolding basic_cancel_method not_connected
cancel_unconnected cancel w e = ground arith

-- On a closed connection consuming is refused with NULL and an exception, while cancelling returns
-- None although the same exception is set. Neither makes a call.
pub consumers_unconnected :
    (consume : Option ConsumeArgs) (cancel : Option CancelArgs) (w : World)
    → w.self.connected ≡ false
    → (basic_consume_method consume w ≡ ok none (refused w))
      × (basic_cancel_method cancel w ≡ ok (some tt) (raised closed_error w))
unfolding basic_consume_method
consumers_unconnected consume cancel w e =
    (opened_closed consume _ w e, cancel_unconnected cancel w e)
