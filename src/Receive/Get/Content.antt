-- ===== src/Receive/Get/Content.antt =====
-- `_basic_get` from the answer on, where a message comes.
use librabbitmq.Base.{
  ℕ, ◌+◌, ◌<◌, ◌≡◌, refl, Bool, true, Option, none, some, List, [], ◌∷◌, ◌++◌, length,
}
use librabbitmq.Base.Int.{pos}
use librabbitmq.Base.Cmd.{ok, Returns, Returns-bind, ◌>>=◌}
use librabbitmq.Py.{PyItems, int, nil}
use librabbitmq.Py.Text.{codes, IsAscii, utf8_encode}
use librabbitmq.Message.{set_str}
use librabbitmq.Message.Items.{Fields, filled}
use librabbitmq.Message.Dict.{HasAsciiTexts, fields, basic_properties_to_dict_ok}
use librabbitmq.World.{
  World, Deliver, BasicProperties, normal, get_ok, Wait, got, header, wait_frame, data_in_buffer,
}
use librabbitmq.World.Open.{IsAlive}
use librabbitmq.Receive.{recv, on_go, receive_start, received}
use librabbitmq.Receive.Opening.{go, header_frame, receive_header}
use librabbitmq.Receive.Fragments.{Message}
use librabbitmq.Receive.Assembly.{joined, Reached}
use librabbitmq.Receive.Bodies.{arriving, stored_body, stored_lem}
use librabbitmq.Receive.Delivered.Frames.{info_fields, headed, basic_deliver_to_dict_ok}
use librabbitmq.Receive.Get.{Got, get_info, get_content, get_reply}

-- `delivery_info`, with the count of the messages that are left.
abbrev pub got_fields : Deliver → ℕ → Fields
got_fields d count = info_fields d ++ ((codes "message_count", some (int (pos count))) ∷ [])

get_info_ok :
    (d : Deliver) (count : ℕ) (w : World)
    → IsAscii d.exchange.bytes
    → IsAscii d.routing_key.bytes
    → get_info d count w ≡ ok (filled (got_fields d count) nil) w
unfolding get_info set_str
get_info_ok d count w he hr = rw (get_info, basic_deliver_to_dict_ok d w.py he hr) refl

abbrev after_look : List Bool → World → World
after_look bs w = record w { lib = record lib { buffered = bs }; trace = data_in_buffer ∷ trace }
  where
    open w use {lib, trace}

content_comes :
    (info : PyItems) (bs : List Bool) (w : World)
    → IsAlive w
    → w.lib.buffered ≡ true ∷ bs
    → get_content info w
      ≡ (recv true true
            >>= (λ r. received r.0 (some (record { delivery_info = info; message = r.1 }))))
          (after_look bs w)
unfolding get_content
content_comes info bs w o b = rw (get_content, o.alive_, b) refl

-- After the frame with the header, which is waited for on any channel.
abbrev after_any : List Wait → World → World
after_any xs w = record w { lib = record lib { frames = xs }; trace = wait_frame ∷ trace }
  where
    open w use {lib, trace}

module _ (c : ℕ) (props : BasicProperties) (size : ℕ) (texts : HasAsciiTexts props)
    (plain : props.headers ≡ none) where
  any_header :
      (xs : List Wait) (w : World)
      → IsAlive w
      → w.lib.frames ≡ got (record { channel = c; payload = header props size }) ∷ xs
      → receive_header 0 w ≡ ok (go (headed c props size)) (after_any xs w)
  unfolding receive_header header_frame
  any_header xs w o e =
      rw
        (
          receive_header,
          o.alive_,
          e,
          header_frame,
          basic_properties_to_dict_ok props w.py texts plain,
        )
        refl

  module _ (fs : List (List ℕ)) (final cs : List ℕ) (xs : List Wait)
      (lt : length (joined fs) < size) (full : length (joined fs) + length final ≡ size)
      (encoded : utf8_encode cs ≡ some final) where
    abbrev pub stored : Message
    stored = record {
      properties = filled (fields props) nil;
      body = stored_body fs final cs size;
      channel = c;
    }

    -- `PyRabbitMQ_recv` with `p` and `piggyback`.
    recv-stored :
        (w : World)
        → IsAlive w
        → w.lib.frames
          ≡ got (record { channel = c; payload = header props size }) ∷ arriving c fs final xs
        → Returns (λ r v. (r ≡ (pos 0, some stored)) × Reached w xs v) (recv true true w)
    unfolding recv receive_start on_go
    recv-stored w o e =
        rw (recv, receive_start, on_go, any_header (arriving c fs final xs) w o e)
          (stored_lem (headed c props size) fs final cs xs (after_any (arriving c fs final xs) w)
            (record { alive_ = o.alive_ }) refl lt full encoded)

    -- What `get` found, and what is left; the object and the exception are as they were.
    abbrev pub Fetches : Deliver → ℕ → World → Option (Option Got) → World → Type 0
    Fetches d count w r v =
        (r
          ≡ some (
              some (record {
                delivery_info = filled (got_fields d count) nil;
                message = some stored;
              })))
        × (v.py ≡ w.py)
        × (v.self ≡ w.self)
        × (v.lib.frames ≡ xs)

    pub reply_ok :
        (d : Deliver) (count : ℕ) (bs : List Bool) (w : World)
        → IsAlive w
        → IsAscii d.exchange.bytes
        → IsAscii d.routing_key.bytes
        → w.lib.buffered ≡ true ∷ bs
        → w.lib.frames
          ≡ got (record { channel = c; payload = header props size }) ∷ arriving c fs final xs
        → Returns (Fetches d count w) (get_reply (normal (get_ok d count)) w)
    unfolding get_reply get_content received
    reply_ok d count bs w o he hr b e =
        rw
          (
            get_reply,
            get_info_ok d count w he hr,
            content_comes (filled (got_fields d count) nil) bs w o b,
          )
          (Returns-bind (λ r v. (r ≡ (pos 0, some stored)) × Reached w xs v) _ (recv true true w') _
            (recv-stored w' (record { alive_ = o.alive_ }) e)
            (λ r v p. rw p.0 (refl, p.1.2, p.1.3, p.1.1)))
      where
        w' : World
        w' = after_look bs w
