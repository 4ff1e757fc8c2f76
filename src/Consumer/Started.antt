-- ===== src/Consumer/Started.antt =====
-- `_basic_consume` where the broker accepts it.
use librabbitmq.Base.{ℕ, ◌≡◌, refl, sym, subst, true, Option, some, none, List, ◌∷◌}
use librabbitmq.Base.Cmd.{ok, Returns, Returns-mono}
use librabbitmq.Py.{PyVal, PyItems, str, dict}
use librabbitmq.Py.Text.{utf8_encode}
use librabbitmq.Amqp.{AmqpBytes, Entries, string_as_amqbytes}
use librabbitmq.Amqp.Encodes.{IsKey, KeyEncodes, IsCleanItems, EncodesItems}
use librabbitmq.World.{
  World, Call, RpcReply, normal, consume_ok, as_channel, channel_pool, get_rpc_reply, basic_consume,
}
use librabbitmq.World.Open.{IsAlive}
use librabbitmq.Synchronous.Answered.{Answered, answered, string_from_amqbytes-utf8_encode}
use librabbitmq.Synchronous.Sent.{opened_work, named_sent, table_of}
use librabbitmq.Consumer.{ConsumeArgs, consumed, consume_work, basic_consume_method}

-- Names that can be encoded, and a clean dict of arguments.
pub record IsConsumable (a : ConsumeArgs) (d : PyItems) : Type 0 where
  pub queue_key : IsKey a.queue
  pub consumer_tag_key : IsKey a.consumer_tag
  pub arguments_dict : a.arguments ≡ dict d
  pub clean : IsCleanItems d

abbrev pub consume_request : ConsumeArgs → AmqpBytes → AmqpBytes → Entries → Call
consume_request a q y t = basic_consume a.channel q y a.no_local a.no_ack a.exclusive t

-- The tag of the answer is returned after these calls, whose request carries the names as they encode
-- and a table that encodes the dict.
abbrev pub Started :
    ConsumeArgs → PyItems → List ℕ → List RpcReply → World → Option PyVal → World → Type 0
Started a d cs rs w x v =
    (q y : AmqpBytes) × (t : Entries) × KeyEncodes a.queue q.bytes
    × KeyEncodes a.consumer_tag y.bytes
    × EncodesItems d t
    × (x ≡ some (str cs))
    × (v.trace
        ≡ get_rpc_reply ∷ consume_request a q y t ∷ channel_pool (as_channel a.channel) ∷ w.trace)
    × (v.lib.replies ≡ rs)
    × (v.py.err ≡ none)
    × (v.self ≡ w.self)

consumed_ok :
    (name : AmqpBytes) (cs : List ℕ) (w : World)
    → utf8_encode cs ≡ some name.bytes
    → consumed (normal (consume_ok name)) w ≡ ok (some (str cs)) w
unfolding consumed
consumed_ok name cs w e = rw (consumed, string_from_amqbytes-utf8_encode name cs w.py e) refl

-- On an open connection with no exception set, where the names can be encoded, the arguments are a
-- clean dict and the broker accepts and names the consumer by a text, `_basic_consume` returns that
-- text. It makes exactly three calls: for the channel's memory, the request, and for its answer. The
-- request carries the queue and the tag as they encode, the flags in their order, and a table that
-- encodes the dict.
pub basic_consume_accepted :
    (a : ConsumeArgs) (d : PyItems) (name : AmqpBytes) (cs : List ℕ) (rs : List RpcReply)
    (w : World)
    → IsConsumable a d
    → IsAlive w
    → w.self.connected ≡ true
    → w.py.err ≡ none
    → w.lib.replies ≡ normal (consume_ok name) ∷ rs
    → utf8_encode cs ≡ some name.bytes
    → Returns (Started a d cs rs w) (basic_consume_method (some a) w)
unfolding basic_consume_method consume_work string_as_amqbytes
basic_consume_accepted a d name cs rs w fine o c calm replies encoded =
    subst (Returns (Started a d cs rs w)) (sym (opened_work consume_work a w c)) (
      named_sent w w.trace (Started a d cs rs w) a.queue _ w fine.queue_key
        (record { alive_ = o.alive_ }, calm, refl, refl, refl)
        (λ qs qr w1 qe h1.
          named_sent w w.trace (Started a d cs rs w) a.consumer_tag _ w1 fine.consumer_tag_key h1
            (λ ys yr w2 ye h2.
              table_of w w.trace (Started a d cs rs w) a.channel a.arguments d _ w2
                fine.arguments_dict fine.clean h2
                (λ t w3 te h3.
                  let q : AmqpBytes = record { bytes = qs; owner = qr } in
                  let y : AmqpBytes = record { bytes = ys; owner = yr } in
                  Returns-mono
                    (Answered (str cs) rs (consume_request a q y t)
                      (channel_pool (as_channel a.channel) ∷ w.trace) w)
                    (Started a d cs rs w) _
                    (answered "basic.consume" consumed (consume_ok name) (str cs)
                      (λ v. consumed_ok name cs v encoded) rs w
                      (channel_pool (as_channel a.channel) ∷ w.trace) a.channel
                      (consume_request a q y t) w3 replies h3)
                    (λ x v p. (q, y, t, qe, ye, te, p.0, p.1, p.2, p.3, p.4))))))
