-- ===== src/Receive/Keeps/Contents.antt =====
-- What receiving the body of a message keeps: every predicate on the connection object alone that
-- closing the connection keeps.
use librabbitmq.Base.{
  ℕ, ◌+◌, Bool, true, false, Option, none, some, List, [], ◌∷◌, ltb, leb, length,
}
use librabbitmq.Base.Int.{pos, negsuc}
use librabbitmq.Base.Cmd.{ok, Cmd, pure, ◌>>◌}
use librabbitmq.Base.Keeps.{Keeps, Keeps-pure, Keeps-fail, Keeps-bind, Keeps-then, Keeps-if}
use librabbitmq.Py.{unicode_decode_error}
use librabbitmq.Py.Text.{utf8_decode}
use librabbitmq.World.{
  World, Connection, method, header, body, other_frame, Payload, Wait, failed, got, Body, text_body,
}
use librabbitmq.World.Calls.{raise}
use librabbitmq.World.Keeps.{IsStable, raise-Keeps, call-Keeps, next_frame-Keeps, waits-Keeps}
use librabbitmq.World.OnSelf.{OnSelf, OnSelf-IsStable}
use librabbitmq.Errors.{close}
use librabbitmq.Receive.Opening.{Exit, go, Head}
use librabbitmq.Receive.Fragments.{
  Content, absent, whole, copied, copy, fragment, body_frame, body_on, receive_body, payload_of,
}
use librabbitmq.Receive.{Received, store}
use librabbitmq.Receive.Keeps.Opening.{altframe-Keeps}

module _ (Q : Connection → Type 0) (closing : Keeps (OnSelf Q) close) where
  abbrev stable : IsStable (OnSelf Q)
  stable = OnSelf-IsStable Q

  copy-Keeps :
      (room : ℕ) (filled bs : List ℕ) (next : List ℕ → Cmd World (Exit Content))
      → ((cs : List ℕ) → Keeps (OnSelf Q) (next cs))
      → Keeps (OnSelf Q) (copy room filled bs next)
  copy-Keeps room filled bs next k =
      Keeps-if (leb (length filled + length bs) room) _ _ (k _) Keeps-fail

  fragment-Keeps :
      (again : Content → ℕ → Cmd World (Exit Content)) (room n : ℕ) (c : Content) (bs : List ℕ)
      → ((c' : Content) (m : ℕ) → Keeps (OnSelf Q) (again c' m))
      → Keeps (OnSelf Q) (fragment again room n c bs)
  unfolding fragment
  fragment-Keeps again room n absent bs k =
      Keeps-if (ltb (n + length bs) room) _ _
        (copy-Keeps room [] bs _ (λ cs. k (copied cs) (n + length bs))) (Keeps-pure (go (whole bs)))
  fragment-Keeps again room n (copied filled) bs k =
      copy-Keeps room filled bs _ (λ cs. k (copied cs) (n + length bs))
  fragment-Keeps again room n (whole cs) bs k = Keeps-fail

  body_frame-Keeps :
      (again : Content → ℕ → Cmd World (Exit Content)) (room n : ℕ) (c : Content) (x : Wait)
      → ((c' : Content) (m : ℕ) → Keeps (OnSelf Q) (again c' m))
      → Keeps (OnSelf Q) (body_frame again room n c x)
  unfolding body_frame
  body_frame-Keeps again room n c (failed m) k = Keeps-pure _
  body_frame-Keeps again room n c (got f) k = of_payload f.channel f.payload
    where
      of_payload :
          (ch : ℕ) (p : Payload)
          → Keeps
              (OnSelf Q)
              (body_frame again room n c (got (record { channel = ch; payload = p })))
      of_payload ch (method m) = altframe-Keeps Q closing ch m
      of_payload ch (header p m) = Keeps-then _ _ (raise-Keeps _ stable _) (Keeps-pure _)
      of_payload ch (body bs) = fragment-Keeps again room n c bs k
      of_payload ch (other_frame m) = Keeps-then _ _ (raise-Keeps _ stable _) (Keeps-pure _)

  while-Keeps :
      (b : Bool) (c : Content) (m : Cmd World (Exit Content))
      → Keeps (OnSelf Q) m
      → Keeps {A = Exit Content} (OnSelf Q) (elim b [ false ↦ pure (go c) | true ↦ m ])
  while-Keeps true c m k = k
  while-Keeps false c m k = Keeps-pure _

  body_on-Keeps :
      (xs : List Wait) (ch room : ℕ) (c : Content) (n : ℕ)
      → Keeps (OnSelf Q) (body_on xs ch room c n)
  unfolding body_on
  body_on-Keeps [] ch room c n =
      while-Keeps (ltb n room) c _ (Keeps-then _ _ (call-Keeps _ stable _) (waits-Keeps _ stable))
  body_on-Keeps (x ∷ xs) ch room c n = while-Keeps (ltb n room) c _ (
      Keeps-bind _ _ (call-Keeps _ stable _) (λ u.
        Keeps-bind _ _ (next_frame-Keeps _ stable)
          (λ y. body_frame-Keeps _ room n c y (body_on-Keeps xs ch room))))

  pub receive_body-Keeps : (h : Head) → Keeps (OnSelf Q) (receive_body h)
  unfolding receive_body
  receive_body-Keeps h = record {
    at = λ w q. (body_on-Keeps w.lib.frames h.channel h.body_target absent 0).at w q;
  }

  payload_of-Keeps : (n : ℕ) (c : Content) → Keeps (OnSelf Q) (payload_of n c)
  unfolding payload_of
  payload_of-Keeps n absent = record { at = λ w h. h }
  payload_of-Keeps n (copied bs) = record { at = λ w h. h }
  payload_of-Keeps n (whole bs) = decoded (utf8_decode bs)
    where
      decoded :
          (o : Option (List ℕ))
          → Keeps {A = Option Body} (OnSelf Q) (λ w. elim o [
            | none ↦ (raise unicode_decode_error >> pure none) w
            | some cs ↦ ok (some (text_body cs)) w
          ])
      decoded none = record { at = λ w h. h }
      decoded (some cs) = record { at = λ w h. h }

  pub store-Keeps : (h : Head) (c : Content) → Keeps (OnSelf Q) (store h c)
  unfolding store
  store-Keeps h c = Keeps-bind _ _ (payload_of-Keeps h.body_target c) stored
    where
      stored :
          (o : Option Body)
          → Keeps {A = Received} (OnSelf Q) (elim o [
            | none ↦ pure (negsuc 0, none)
            | some b ↦
                pure
                  (pos 0, some (record { properties = h.propdict; body = b; channel = h.channel }))
          ])
      stored none = Keeps-pure _
      stored (some b) = Keeps-pure _
