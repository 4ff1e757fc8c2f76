-- ===== src/Receive/Keeps/Opening.antt =====
-- What receiving the first two frames of a message keeps: every predicate on the connection object
-- alone that closing the connection keeps.
use librabbitmq.Base.{ℕ, ◌==◌, Bool, true, false, List, [], ◌∷◌}
use librabbitmq.Base.Cmd.{Cmd}
use librabbitmq.Base.Keeps.{Keeps, Keeps-pure, Keeps-bind, Keeps-then, Keeps-if}
use librabbitmq.Py.{nil}
use librabbitmq.World.{
  World, Connection, Method, basic_deliver, channel_close, connection_close, other_method, method,
  header, body, other_frame, Payload, Wait, failed, got,
}
use librabbitmq.World.Keeps.{IsStable, raise-Keeps, call-Keeps, next_frame-Keeps, waits-Keeps}
use librabbitmq.World.OnSelf.{OnSelf, OnSelf-IsStable, lift-Keeps}
use librabbitmq.Errors.{close}
use librabbitmq.Errors.Keeps.{revive_channel-Keeps, set_err_unexpected_header-Keeps}
use librabbitmq.Amqp.Read.{string_from_amqbytes}
use librabbitmq.Message.{set_str, basic_properties_to_dict, basic_deliver_to_dict}
use librabbitmq.Receive.Opening.{
  set_err_received_frame, altframe, deliver_start, first_method, deliver_frame, deliver_on,
  header_frame, receive_header, Exit, Start,
}
use librabbitmq.Receive.{receive_start}

module _ (Q : Connection → Type 0) (closing : Keeps (OnSelf Q) close) where
  abbrev stable : IsStable (OnSelf Q)
  stable = OnSelf-IsStable Q

  set_err_received_frame-Keeps :
      (ch : ℕ) (m : Method) → Keeps (OnSelf Q) (set_err_received_frame ch m)
  unfolding set_err_received_frame
  set_err_received_frame-Keeps ch (channel_close code reason) =
      Keeps-then _ _ (raise-Keeps _ stable _)
        (Keeps-bind _ _ (revive_channel-Keeps _ stable closing ch) (λ b. Keeps-pure tt))
  set_err_received_frame-Keeps ch (connection_close code reason) =
      Keeps-then _ _ (raise-Keeps _ stable _) closing
  set_err_received_frame-Keeps ch (basic_deliver d) = raise-Keeps _ stable _
  set_err_received_frame-Keeps ch (other_method i) = raise-Keeps _ stable _

  pub altframe-Keeps : {A : Type 0} (ch : ℕ) (m : Method) → Keeps (OnSelf Q) (altframe {A = A} ch m)
  altframe-Keeps ch m = Keeps-then _ _ (set_err_received_frame-Keeps ch m) (Keeps-pure _)

  first_method-Keeps : (ch : ℕ) (m : Method) → Keeps (OnSelf Q) (first_method ch m)
  unfolding first_method deliver_start
  first_method-Keeps ch (basic_deliver d) =
      Keeps-bind _ _ (lift-Keeps Q (basic_deliver_to_dict nil d)) (λ info.
        Keeps-bind _ _ (lift-Keeps Q (string_from_amqbytes d.consumer_tag)) (λ tag.
          Keeps-bind _ _ (lift-Keeps Q (set_str info "consumer_tag" tag)) (λ info'. Keeps-pure _)))
  first_method-Keeps ch (channel_close code reason) = altframe-Keeps ch (channel_close code reason)
  first_method-Keeps ch (connection_close code reason) =
      altframe-Keeps ch (connection_close code reason)
  first_method-Keeps ch (other_method i) = altframe-Keeps ch (other_method i)

  deliver_frame-Keeps :
      (again : Cmd World (Exit Start)) (x : Wait)
      → Keeps (OnSelf Q) again
      → Keeps (OnSelf Q) (deliver_frame again x)
  unfolding deliver_frame
  deliver_frame-Keeps again (failed n) k = Keeps-pure _
  deliver_frame-Keeps again (got f) k = of_payload f.channel f.payload
    where
      of_payload :
          (ch : ℕ) (p : Payload)
          → Keeps (OnSelf Q) (deliver_frame again (got (record { channel = ch; payload = p })))
      of_payload ch (method m) = first_method-Keeps ch m
      of_payload ch (header p n) = k
      of_payload ch (body bs) = k
      of_payload ch (other_frame n) = k

  deliver_on-Keeps : (xs : List Wait) → Keeps (OnSelf Q) (deliver_on xs)
  unfolding deliver_on
  deliver_on-Keeps [] =
      Keeps-then _ _ (Keeps-then _ _ (call-Keeps _ stable _) (call-Keeps _ stable _))
        (waits-Keeps _ stable)
  deliver_on-Keeps (x ∷ xs) = Keeps-bind _ _ (call-Keeps _ stable _) (λ u.
      Keeps-bind _ _ (call-Keeps _ stable _) (λ u'.
        Keeps-bind _ _ (next_frame-Keeps _ stable)
          (λ y. deliver_frame-Keeps _ y (deliver_on-Keeps xs))))

  pub receive_start-Keeps : (b : Bool) → Keeps (OnSelf Q) (receive_start b)
  unfolding receive_start
  receive_start-Keeps true = record { at = λ w h. h }
  receive_start-Keeps false = record { at = λ w h. (deliver_on-Keeps w.lib.frames).at w h }

  header_frame-Keeps : (x : Wait) → Keeps (OnSelf Q) (header_frame x)
  unfolding header_frame
  header_frame-Keeps (failed n) = Keeps-pure _
  header_frame-Keeps (got f) = of_payload f.channel f.payload
    where
      of_payload :
          (ch : ℕ) (p : Payload)
          → Keeps (OnSelf Q) (header_frame (got (record { channel = ch; payload = p })))
      of_payload ch (method m) = altframe-Keeps ch m
      of_payload ch (header p n) =
          Keeps-bind _ _ (lift-Keeps Q (basic_properties_to_dict p nil)) (λ d. Keeps-pure _)
      of_payload ch (body bs) =
          Keeps-then _ _ (set_err_unexpected_header-Keeps _ stable _) (Keeps-pure _)
      of_payload ch (other_frame n) =
          Keeps-then _ _ (set_err_unexpected_header-Keeps _ stable _) (Keeps-pure _)

  pub receive_header-Keeps : (ch : ℕ) → Keeps (OnSelf Q) (receive_header ch)
  unfolding receive_header
  receive_header-Keeps ch =
      Keeps-bind _ _ (Keeps-if (ch == 0) _ _ (call-Keeps _ stable _) (call-Keeps _ stable _))
        (λ u. Keeps-bind _ _ (next_frame-Keeps _ stable) header_frame-Keeps)
