-- ===== src/Receive/Unexpected.antt =====
-- `_basic_recv` on a frame that is no header where the header should come.
use librabbitmq.Base.{ℕ, suc, ◌≡◌, refl, subst, sym, true, some, List, ◌∷◌}
use librabbitmq.Base.Cmd.{ok}
use librabbitmq.Py.{channel_error, unexpected_header}
use librabbitmq.World.{World, alive, Deliver, got, method, basic_deliver, body, Wait}
use librabbitmq.World.Calls.{raised}
use librabbitmq.World.Open.{IsAlive}
use librabbitmq.Errors.{not_connected, set_err_unexpected_header}
use librabbitmq.Receive.Waiting.{other_timeout}
use librabbitmq.Receive.{basic_recv, polled, recv, on_go, received}
use librabbitmq.Receive.Opening.{header_frame, receive_header, frame_body}
use librabbitmq.Receive.Delivered.Frames.{
  HasAsciiNames, receive_start_ok, after_first, after_header, not_zero,
}

abbrev opened : List Wait → World → World
opened fs w = record w {
  self = record self { conn = alive; connected = true };
  lib = record lib { frames = fs };
}
  where
    open w use {self, lib}

-- The frames, and what is left of the state.
abbrev pub broken_off : ℕ → Deliver → List ℕ → List Wait → List Wait
broken_off c d bs xs =
    got (record { channel = c; payload = method (basic_deliver d) })
    ∷ got (record { channel = c; payload = body bs })
    ∷ xs

abbrev pub after_two : ℕ → List ℕ → List Wait → World → World
after_two c bs xs w =
    raised (channel_error (unexpected_header frame_body))
      (after_header c xs (after_first (got (record { channel = c; payload = body bs }) ∷ xs) w))

opened_unexpected :
    (n : ℕ) (d : Deliver) (bs : List ℕ) (xs : List Wait) (w : World)
    → HasAsciiNames d
    → basic_recv (some other_timeout) (opened (broken_off (suc n) d bs xs) w)
      ≡ ok (some tt) (after_two (suc n) bs xs (opened (broken_off (suc n) d bs xs) w))
unfolding basic_recv not_connected polled recv on_go receive_header header_frame
    set_err_unexpected_header received
opened_unexpected n d bs xs w names =
    rw
      (
        basic_recv,
        recv,
        receive_start_ok (suc n) d (got (record { channel = suc n; payload = body bs }) ∷ xs)
            (opened (broken_off (suc n) d bs xs) w) (record { alive_ = refl }) names refl,
        on_go,
        receive_header,
        not_zero n,
      )
      refl

-- On an open connection, without a time to wait: a delivery on a channel other than 0, its texts in
-- ASCII, that is followed by a body instead of a header. `_basic_recv` returns None, although the
-- exception for an unexpected frame is set; it takes the two frames and leaves the connection open.
pub basic_recv_unexpected :
    (n : ℕ) (d : Deliver) (bs : List ℕ) (xs : List Wait) (w : World)
    → IsAlive w
    → w.self.connected ≡ true
    → HasAsciiNames d
    → w.lib.frames ≡ broken_off (suc n) d bs xs
    → basic_recv (some other_timeout) w ≡ ok (some tt) (after_two (suc n) bs xs w)
basic_recv_unexpected n d bs xs w o c names e =
    subst (λ v. basic_recv (some other_timeout) v ≡ ok (some tt) (after_two (suc n) bs xs v))
      (sym same) (opened_unexpected n d bs xs w names)
  where
    same : w ≡ opened (broken_off (suc n) d bs xs) w
    same = λ i. record w {
      self = record self { conn = o.alive_ i; connected = c i };
      lib = record lib { frames = e i };
    }
      where
        open w use {self, lib}
