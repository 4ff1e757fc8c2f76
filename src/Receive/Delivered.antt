-- ===== src/Receive/Delivered.antt =====
-- A message for a consumer, from its first frame to its callback (`PyRabbitMQ_recv` for a caller that
-- gave NULL).
pub mod Frames
pub mod Called
use Prim.Native.String.{String}
use librabbitmq.Base.{
  ℕ, suc, subst, ◌+◌, ◌<◌, ◌≡◌, ◌∙◌, refl, ap, sym, true, false, Bool, Option, none, some, List, [],
  ◌∷◌, ◌++◌, length, ◌==◌, arith, if◌then◌else◌,
}
use librabbitmq.Base.Int.{ℤ, pos}
use librabbitmq.Base.Cmd.{Run, ok, Cmd, ◌>>=◌, ◌>>◌, Returns, Returns-bind, Returns-mono}
use librabbitmq.Py.{Py, PyErr, PyVal, PyItems, int, bool, str, dict, nil}
use librabbitmq.Py.Text.{codes, IsAscii}
use librabbitmq.Py.Text.Laws.{utf8_decode_ascii}
use librabbitmq.Amqp.{AmqpBytes}
use librabbitmq.Amqp.Read.{string_from_amqbytes, from_long}
use librabbitmq.Message.{set_str, as_long_long, basic_deliver_to_dict, basic_properties_to_dict}
use librabbitmq.Message.Items.{Fields, filled}
use librabbitmq.Message.Dict.{HasAsciiTexts, fields, basic_properties_to_dict_ok}
use librabbitmq.World.{
  World, Deliver, BasicProperties, Delivery, Wait, got, method, basic_deliver, header, view_body,
  release_buffers, wait_frame, wait_frame_on_channel,
}
use librabbitmq.World.Open.{IsAlive}
use librabbitmq.Receive.{recv, on_go, receive_start, dispatch}
use librabbitmq.Receive.Opening.{
  Exit, go, Start, Head, deliver_start, first_method, deliver_frame, deliver_on, header_frame,
  receive_header,
}
use librabbitmq.Receive.Fragments.{Content, receive_body, view_of}
use librabbitmq.Receive.Callback.{
  get_item, get_number, callback_for, listed, deliver_to, run_callback, with_channel,
  channel_callbacks, apply_callback,
}
use librabbitmq.Receive.Assembly.{joined, Reached}
use librabbitmq.Receive.Bodies.{assembled, arriving, receive_body-assembled}
use Frames.{
  HasAsciiNames, info_fields, consumer_fields, basic_deliver_to_dict_ok, started, after_first,
  after_header, headed, receive_start_ok, receive_header_ok, not_zero,
}
use Called.{IsListening, after_callback, handed, tagged, apply_callback_ok}

-- The view of a complete body.
view_assembled :
    (fs : List (List ℕ)) (final : List ℕ) (size : ℕ)
    → length (joined fs) + length final ≡ size
    → view_of size (assembled fs final) ≡ some (view_body (joined fs ++ final) size)
unfolding view_of
view_assembled [] final size e = ap (λ n. some (view_body final n)) (omega (arith, e))
view_assembled (bs ∷ fs) final size e = refl

-- The message that the callback receives.
abbrev pub message_of : ℕ → Deliver → BasicProperties → List ℕ → ℕ → Delivery
message_of c d props content size = record {
  channel = c;
  consumer_tag = str d.consumer_tag.bytes;
  properties = filled (fields props) nil;
  delivery_info = filled (consumer_fields d) nil;
  body = view_body content size;
}

-- The frames of one message, and what comes behind.
abbrev pub frames_of :
    ℕ → Deliver → BasicProperties → ℕ → List (List ℕ) → List ℕ → List Wait → List Wait
frames_of c d props size fs final xs =
    got (record { channel = c; payload = method (basic_deliver d) })
    ∷ got (record { channel = c; payload = header props size })
    ∷ arriving c fs final xs

-- The message was handed to the callback, what the callback raised is set, nothing else is, and the frames of
-- the message have been taken.
abbrev pub Handed : Delivery → Option PyErr → List Wait → World → ℤ → World → Type 0
Handed m o xs w z v =
    (z ≡ pos 0)
    × (v.caller.delivered ≡ m ∷ w.caller.delivered)
    × (v.py ≡ after_callback o w.py)
    × (v.self ≡ w.self)
    × (v.lib.frames ≡ xs)

module _ (n : ℕ) (d : Deliver) (props : BasicProperties) (size : ℕ) (fs : List (List ℕ))
    (final : List ℕ) (xs : List Wait) (o : Option PyErr) (os : List (Option PyErr)) where
  abbrev message : Delivery
  message = message_of (suc n) d props (joined fs ++ final) size

  dispatched :
      (w v : World)
      → length (joined fs) + length final ≡ size
      → IsListening (suc n) d.consumer_tag.bytes w
      → w.caller.outcomes ≡ none ∷ o ∷ os
      → Reached w xs v
      → Returns
          (λ r u. Handed message o xs w r.0 u)
          (dispatch (started (suc n) d) (headed (suc n) props size) (assembled fs final) v)
  unfolding dispatch
  dispatched w v full l e r =
      rw
        (
          dispatch,
          view_assembled fs final size full,
          apply_callback_ok message d.consumer_tag.bytes o os v listening
              (ap (λ c. c.outcomes) r.4 ∙ e),
        )
        (refl, ap (λ c. message ∷ c.delivered) r.4, ap (after_callback o) r.2, r.3, r.1)
    where
      listening : IsListening (suc n) d.consumer_tag.bytes v
      listening = record {
        callbacks = l.callbacks;
        of_channel = l.of_channel;
        callback = l.callback;
        channels = l.channels;
        has_callbacks = ap (λ c. c.callbacks) r.3 ∙ l.has_callbacks;
        has_channel = l.has_channel;
        has_tag = l.has_tag;
        has_channels = ap (λ c. c.channels) r.4 ∙ l.has_channels;
        is_listed = l.is_listed;
      }

-- A message for a consumer that is listening, without headers, its texts in ASCII, on a channel other
-- than 0, with a body that is not empty and whose fragments make up the announced length:
-- `PyRabbitMQ_recv` takes its frames and no others and hands the message to the callback, with the
-- properties of the header (its numbers, any timestamp included, as C converts them to `long`), the
-- delivery info of the first frame, and a view of the whole body; then it returns 0. What the callback raises is left set; nothing else is, and the object is unchanged.
pub recv_delivered :
    (n : ℕ) (d : Deliver) (props : BasicProperties) (size : ℕ) (fs : List (List ℕ)) (final : List ℕ)
    (xs : List Wait) (o : Option PyErr) (os : List (Option PyErr)) (w : World)
    → IsAlive w
    → w.lib.frames ≡ frames_of (suc n) d props size fs final xs
    → HasAsciiNames d
    → HasAsciiTexts props
    → props.headers ≡ none
    → length (joined fs) < size
    → length (joined fs) + length final ≡ size
    → IsListening (suc n) d.consumer_tag.bytes w
    → w.caller.outcomes ≡ none ∷ o ∷ os
    → Returns
        (λ r v. Handed (message_of (suc n) d props (joined fs ++ final) size) o xs w r.0 v)
        (recv false false w)
unfolding recv on_go
recv_delivered n d props size fs final xs o os w alive e names texts plain lt full l outcomes =
    rw
      (
        recv,
        receive_start_ok (suc n) d rest w alive names e,
        on_go,
        receive_header_ok n props size (arriving (suc n) fs final xs) (after_first rest w)
            (record { alive_ = alive.alive_ }) texts plain refl,
      )
      (Returns-bind (λ r v. (r ≡ go (assembled fs final)) × Reached w2 xs v) _
        (receive_body (headed (suc n) props size) w2) _
        (receive_body-assembled (headed (suc n) props size) fs final xs w2
          (record { alive_ = alive.alive_ }) refl lt full)
        (λ r v p.
          subst
            (λ x.
              Returns
                (λ y u. Handed (message_of (suc n) d props (joined fs ++ final) size) o xs w y.0 u)
                (on_go (dispatch (started (suc n) d) (headed (suc n) props size)) x v))
            (sym p.0) (dispatched n d props size fs final xs o os w v full l outcomes p.1)))
  where
    rest : List Wait
    rest =
        got (record { channel = suc n; payload = header props size }) ∷ arriving (suc n) fs final xs

    w2 : World
    w2 = after_header (suc n) (arriving (suc n) fs final xs) (after_first rest w)
