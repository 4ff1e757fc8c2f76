-- ===== src/Queue/Exchanges.antt =====
-- `_exchange_declare` where the broker accepts it.
use librabbitmq.Base.{◌≡◌, refl, sym, subst, true, Option, some, none, List, ◌∷◌, Top}
use librabbitmq.Base.Cmd.{Returns, Returns-mono}
use librabbitmq.Py.{PyItems}
use librabbitmq.Amqp.{AmqpBytes, Entries, string_as_amqbytes}
use librabbitmq.Amqp.Encodes.{KeyEncodes, EncodesItems}
use librabbitmq.World.{
  World, Call, RpcReply, normal, Decoded, as_channel, channel_pool, get_rpc_reply, exchange_declare,
}
use librabbitmq.World.Open.{IsAlive}
use librabbitmq.Synchronous.{return_none}
use librabbitmq.Synchronous.Answered.{Answered, answered}
use librabbitmq.Synchronous.Sent.{opened_work, named_sent, table_of}
use librabbitmq.Queue.{ExchangeArgs, exchange_declare_work, exchange_declare_method}
use librabbitmq.Queue.Requests.{IsDeclarable}

-- The request: the exchange is neither deleted by itself nor internal.
abbrev pub exchange_request : ExchangeArgs → AmqpBytes → AmqpBytes → Entries → Call
exchange_request a e y t = exchange_declare a.channel e y a.passive a.durable 0 0 t

-- None is returned after these calls, whose request carries the name and the type as they encode and
-- a table that encodes the dict.
abbrev pub Established :
    ExchangeArgs → PyItems → List RpcReply → World → Option Top → World → Type 0
Established a d rs w x v =
    (e y : AmqpBytes) × (t : Entries) × KeyEncodes a.exchange e.bytes
    × KeyEncodes a.type y.bytes
    × EncodesItems d t
    × (x ≡ some tt)
    × (v.trace
        ≡ get_rpc_reply ∷ exchange_request a e y t ∷ channel_pool (as_channel a.channel) ∷ w.trace)
    × (v.lib.replies ≡ rs)
    × (v.py.err ≡ none)
    × (v.self ≡ w.self)

-- On an open connection with no exception set, where the name and the type can be encoded, the
-- arguments are a clean dict and the broker accepts, declaring an exchange returns None. The method
-- makes exactly three calls: for the channel's memory, the request, and for its answer. The request
-- carries the name and the type as they encode, a table that encodes the dict, and 0 in place of
-- `auto_delete`.
pub exchange_declare_accepted :
    (a : ExchangeArgs) (d : PyItems) (answer : Decoded) (rs : List RpcReply) (w : World)
    → IsDeclarable a d
    → IsAlive w
    → w.self.connected ≡ true
    → w.py.err ≡ none
    → w.lib.replies ≡ normal answer ∷ rs
    → Returns (Established a d rs w) (exchange_declare_method (some a) w)
unfolding exchange_declare_method exchange_declare_work string_as_amqbytes
exchange_declare_accepted a d answer rs w fine o c calm replies =
    subst (Returns (Established a d rs w)) (sym (opened_work exchange_declare_work a w c)) (
      named_sent w w.trace (Established a d rs w) a.exchange _ w fine.exchange_key
        (record { alive_ = o.alive_ }, calm, refl, refl, refl)
        (λ es er w1 ee h1.
          named_sent w w.trace (Established a d rs w) a.type _ w1 fine.type_key h1
            (λ ys yr w2 ye h2.
              table_of w w.trace (Established a d rs w) a.channel a.arguments d _ w2
                fine.arguments_dict fine.clean h2
                (λ t w3 te h3.
                  let e : AmqpBytes = record { bytes = es; owner = er } in
                  let y : AmqpBytes = record { bytes = ys; owner = yr } in
                  Returns-mono
                    (Answered tt rs (exchange_request a e y t)
                      (channel_pool (as_channel a.channel) ∷ w.trace) w)
                    (Established a d rs w) _
                    (answered "exchange.declare" return_none answer tt (λ v. refl) rs w
                      (channel_pool (as_channel a.channel) ∷ w.trace) a.channel
                      (exchange_request a e y t) w3 replies h3)
                    (λ x v p. (e, y, t, ee, ye, te, p.0, p.1, p.2, p.3, p.4))))))
