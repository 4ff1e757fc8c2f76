-- ===== src/Receive/Get/Fetched.antt =====
-- `_basic_get` where a message comes.
use librabbitmq.Base.{
  ℕ, ◌+◌, ◌<◌, ◌≡◌, ◌∙◌, refl, ap, sym, subst, Bool, true, Option, none, some, List, ◌∷◌, length,
  arith,
}
use librabbitmq.Base.Cmd.{Returns, Returns-mono, ◌>>=◌}
use librabbitmq.Py.{nil}
use librabbitmq.Py.Text.{IsAscii, utf8_encode}
use librabbitmq.Py.Held.{maybe_unicode, xdecref_held}
use librabbitmq.Py.Held.Laws.{xdecref_held-err}
use librabbitmq.Amqp.{string_as_amqbytes}
use librabbitmq.Amqp.Encodes.{IsKey}
use librabbitmq.Amqp.Encodes.Stores.{key_object, key_ok}
use librabbitmq.Message.Items.{filled}
use librabbitmq.Message.Dict.{HasAsciiTexts, fields}
use librabbitmq.World.{
  World, alive, Deliver, BasicProperties, RpcReply, normal, get_ok, Wait, got, header, basic_get,
}
use librabbitmq.World.Calls.{lift}
use librabbitmq.World.Open.{IsAlive}
use librabbitmq.Errors.{not_connected, handle_amq_error, handle_with}
use librabbitmq.Synchronous.Sent.{with_py_returns}
use librabbitmq.Receive.Assembly.{joined}
use librabbitmq.Receive.Bodies.{arriving, stored_body}
use librabbitmq.Receive.Get.{Got, GetArgs, get_from, basic_get_method}
use librabbitmq.Receive.Get.Content.{got_fields, Fetches, reply_ok}

abbrev at : World → List RpcReply → World
at w rs = record w { self = record self { conn = alive }; lib = record lib { replies = rs } }
  where
    open w use {self, lib}

-- The dict with the message is returned, with no exception set and the object unchanged; the frames
-- of the message have been taken.
abbrev pub Fetched : Got → List Wait → World → Option (Option Got) → World → Type 0
Fetched g xs w r v =
    (r ≡ some (some g)) × (v.py.err ≡ none) × (v.self ≡ w.self) × (v.lib.frames ≡ xs)

-- The dict for a message.
abbrev pub got_of : ℕ → Deliver → ℕ → BasicProperties → ℕ → List (List ℕ) → List ℕ → List ℕ → Got
got_of c d count props size fs final cs = record {
  delivery_info = filled (got_fields d count) nil;
  message = some (record {
    properties = filled (fields props) nil;
    body = stored_body fs final cs size;
    channel = c;
  });
}

module _ (a : GetArgs) (c : ℕ) (d : Deliver) (count : ℕ) (props : BasicProperties) (size : ℕ)
    (fs : List (List ℕ)) (final cs : List ℕ) (rs : List RpcReply) (bs : List Bool) (xs : List Wait)
    (exchange : IsAscii d.exchange.bytes) (routing_key : IsAscii d.routing_key.bytes)
    (texts : HasAsciiTexts props) (plain : props.headers ≡ none) (lt : length (joined fs) < size)
    (full : length (joined fs) + length final ≡ size) (encoded : utf8_encode cs ≡ some final) where
  abbrev Result : World → Option (Option Got) → World → Type 0
  Result = Fetched (got_of c d count props size fs final cs) xs

  from_at :
      (ks : List ℕ) (r : Option ℕ) (w : World)
      → w.py.err ≡ none
      → w.lib.buffered ≡ true ∷ bs
      → w.lib.frames
        ≡ got (record { channel = c; payload = header props size }) ∷ arriving c fs final xs
      → Returns
          (Result (at w (normal (get_ok d count) ∷ rs)))
          (get_from a (key_object ks r) (at w (normal (get_ok d count) ∷ rs)))
  unfolding get_from string_as_amqbytes handle_amq_error handle_with
  from_at ks r w calm b e =
      Returns-mono (Fetches c props size texts plain fs final cs xs lt full encoded d count w') _ _
        (reply_ok c props size texts plain fs final cs xs lt full encoded d count bs w'
          (record { alive_ = refl }) exchange routing_key b e)
        (λ x v p. (p.0, ap (λ y. y.err) p.1 ∙ (xdecref_held-err w.py ∙ calm), p.2, p.3))
    where
      w' : World
      w' = record w {
        py = xdecref_held py;
        self = record self { conn = alive };
        lib = record lib { replies = rs };
        trace = basic_get a.channel (record { bytes = ks; owner = r }) a.no_ack ∷ trace;
      }
        where
          open w use {py, self, lib, trace}

  from_ok :
      (ks : List ℕ) (r : Option ℕ) (w : World)
      → IsAlive w
      → w.py.err ≡ none
      → w.lib.replies ≡ normal (get_ok d count) ∷ rs
      → w.lib.buffered ≡ true ∷ bs
      → w.lib.frames
        ≡ got (record { channel = c; payload = header props size }) ∷ arriving c fs final xs
      → Returns (Result w) (get_from a (key_object ks r) w)
  from_ok ks r w o calm e b f =
      subst (λ v. Returns (Result v) (get_from a (key_object ks r) v)) (sym same)
        (from_at ks r w calm b f)
    where
      same : w ≡ at w (normal (get_ok d count) ∷ rs)
      same = λ i. record w {
        self = record self { conn = o.alive_ i };
        lib = record lib { replies = e i };
      }
        where
          open w use {self, lib}

asks :
    (a : GetArgs) (w : World)
    → w.self.connected ≡ true
    → basic_get_method (some a) w ≡ (lift (maybe_unicode a.queue) >>= get_from a) w
unfolding basic_get_method not_connected
asks a w e = ground arith

-- On an open connection with no exception set, where the queue's name can be encoded, the broker
-- answers with a message, there is data in the buffer, and the next frames are the header and a body
-- of the announced length, which is not empty: texts and names are in ASCII, there are no headers,
-- and the last fragment encodes a text. `_basic_get` returns the dict of the message: the properties
-- of the header (its numbers, any timestamp included, as C converts them to `long`), the delivery
-- info of the answer with the number of messages left, and the content, with no exception set and
-- the object unchanged; the frames of the message have been taken.
pub basic_get_method-Fetched :
    (a : GetArgs) (c : ℕ) (d : Deliver) (count : ℕ) (props : BasicProperties) (size : ℕ)
    (fs : List (List ℕ)) (final cs : List ℕ) (rs : List RpcReply) (bs : List Bool) (xs : List Wait)
    (w : World)
    → IsKey a.queue
    → IsAlive w
    → w.self.connected ≡ true
    → w.py.err ≡ none
    → w.lib.replies ≡ normal (get_ok d count) ∷ rs
    → w.lib.buffered ≡ true ∷ bs
    → w.lib.frames
      ≡ got (record { channel = c; payload = header props size }) ∷ arriving c fs final xs
    → IsAscii d.exchange.bytes
    → IsAscii d.routing_key.bytes
    → HasAsciiTexts props
    → props.headers ≡ none
    → length (joined fs) < size
    → length (joined fs) + length final ≡ size
    → utf8_encode cs ≡ some final
    → Returns (Fetched (got_of c d count props size fs final cs) xs w) (basic_get_method (some a) w)
basic_get_method-Fetched a c d count props size fs final cs rs bs xs w key o con calm e b f he hr
      texts plain lt full encoded =
    rw (asks a w con) (
      with_py_returns _ (Fetched (got_of c d count props size fs final cs) xs w)
        (maybe_unicode a.queue w.py) w _ (key_ok a.queue w.py key)
        (λ q s p.
          subst
            (λ q'.
              Returns (Fetched (got_of c d count props size fs final cs) xs w)
                (get_from a q' (record w { py = s })))
            (sym p.2)
            (from_ok a c d count props size fs final cs rs bs xs he hr texts plain lt full encoded
              p.0 p.1 (record w { py = s }) (record { alive_ = o.alive_ }) (p.4 ∙ calm) e b f)))
