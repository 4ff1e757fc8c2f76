-- ===== src/Queue/Sent.antt =====
-- What binding and unbinding a queue send, where the broker accepts it.
use Prim.Native.String.{String}
use librabbitmq.Base.{◌≡◌, refl, sym, subst, true, Option, none, some, List, ◌∷◌, Top, arith}
use librabbitmq.Base.Cmd.{Cmd, Returns, Returns-mono}
use librabbitmq.Py.{PyItems}
use librabbitmq.Amqp.{AmqpBytes, Entries, string_as_amqbytes}
use librabbitmq.Amqp.Encodes.{KeyEncodes, EncodesItems}
use librabbitmq.World.{
  as_channel, World, Call, RpcReply, normal, Decoded, channel_pool, get_rpc_reply,
  release_on_channel, queue_bind, queue_unbind,
}
use librabbitmq.World.Open.{IsAlive}
use librabbitmq.Errors.{not_connected}
use librabbitmq.Synchronous.{opened, synchronous, return_none}
use librabbitmq.Queue.{
  BindArgs, bind_work, bind_send, unbind_send, queue_bind_method, queue_unbind_method,
}
use librabbitmq.Queue.Requests.{IsBindable}
use librabbitmq.Synchronous.Sent.{named_sent, table_of, Accepted, accepted}

-- What is sent: the names and the table of a binding.
abbrev pub Names : BindArgs → PyItems → AmqpBytes → AmqpBytes → AmqpBytes → Entries → Type 0
Names a d q e r t =
    KeyEncodes a.queue q.bytes
    × KeyEncodes a.exchange e.bytes
    × KeyEncodes a.routing_key r.bytes
    × EncodesItems d t

-- After a binding that was accepted: None is returned, and exactly these calls were made.
abbrev pub Bound :
    (BindArgs → AmqpBytes → AmqpBytes → AmqpBytes → Entries → Call)
    → BindArgs
    → PyItems
    → List RpcReply
    → World
    → Option Top
    → World
    → Type 0
Bound request a d rs w0 x v =
    (q : AmqpBytes) × (e : AmqpBytes) × (r : AmqpBytes) × (t : Entries) × Names a d q e r t
    × (x ≡ some tt)
    × (v.trace
        ≡ release_on_channel a.channel
          ∷ get_rpc_reply
          ∷ request a q e r t
          ∷ channel_pool (as_channel a.channel)
          ∷ w0.trace)
    × (v.lib.replies ≡ rs)
    × (v.py.err ≡ none)
    × (v.self ≡ w0.self)

bind_sent :
    (request : BindArgs → AmqpBytes → AmqpBytes → AmqpBytes → Entries → Call) (context : String)
    (a : BindArgs) (d : PyItems) (answer : Decoded) (rs : List RpcReply) (w : World)
    → IsBindable a d
    → IsAlive w
    → w.py.err ≡ none
    → w.lib.replies ≡ normal answer ∷ rs
    → Returns (Bound request a d rs w) (
        bind_work
          (λ q e r t. synchronous true a.channel (request a q e r t) context return_none)
          a
          w)
unfolding bind_work string_as_amqbytes
bind_sent request context a d answer rs w fine o calm replies =
    named_sent w w.trace (Bound request a d rs w) a.queue _ w fine.queue_key
      (record { alive_ = o.alive_ }, calm, refl, refl, refl)
      (λ qs qr w1 qe h1.
        named_sent w w.trace (Bound request a d rs w) a.exchange _ w1 fine.exchange_key h1
          (λ es er w2 ee h2.
            named_sent w w.trace (Bound request a d rs w) a.routing_key _ w2 fine.routing_key_key h2
              (λ ks kr w3 ke h3.
                table_of w w.trace (Bound request a d rs w) a.channel a.arguments d _ w3
                  fine.arguments_dict fine.clean h3
                  (λ t w4 te h4.
                    let q : AmqpBytes = record { bytes = qs; owner = qr } in
                    let e : AmqpBytes = record { bytes = es; owner = er } in
                    let r : AmqpBytes = record { bytes = ks; owner = kr } in
                    Returns-mono
                      (Accepted w rs a.channel (request a q e r t)
                        (channel_pool (as_channel a.channel) ∷ w.trace))
                      (Bound request a d rs w) _
                      (accepted w answer rs (channel_pool (as_channel a.channel) ∷ w.trace)
                        a.channel (request a q e r t) context w4 replies h4)
                      (λ x v p. (q, e, r, t, (qe, ee, ke, te), p.0, p.1, p.2, p.3, p.4))))))

abbrev pub bind_request : BindArgs → AmqpBytes → AmqpBytes → AmqpBytes → Entries → Call
bind_request a q e r t = queue_bind a.channel q e r t

abbrev pub unbind_request : BindArgs → AmqpBytes → AmqpBytes → AmqpBytes → Entries → Call
unbind_request a q e r t = queue_unbind a.channel q e r t

opened_bind :
    (work : BindArgs → Cmd World (Option Top)) (a : BindArgs) (w : World)
    → w.self.connected ≡ true
    → opened (some a) work w ≡ work a w
unfolding opened not_connected
opened_bind work a w e = ground arith

-- On an open connection with no exception set, where the names can be encoded, the arguments are a
-- clean dict and the broker accepts, binding and unbinding a queue return None. Each makes exactly
-- four calls: for the channel's memory, the request, for its answer and to release buffers. The
-- request carries the names as they encode and a table that encodes the dict.
pub queue_bindings_accepted :
    (a : BindArgs) (d : PyItems) (answer : Decoded) (rs : List RpcReply) (w : World)
    → IsBindable a d
    → IsAlive w
    → w.self.connected ≡ true
    → w.py.err ≡ none
    → w.lib.replies ≡ normal answer ∷ rs
    → Returns (Bound bind_request a d rs w) (queue_bind_method (some a) w)
      × Returns (Bound unbind_request a d rs w) (queue_unbind_method (some a) w)
unfolding queue_bind_method queue_unbind_method bind_send unbind_send
queue_bindings_accepted a d answer rs w fine o c calm replies = (
  subst (Returns (Bound bind_request a d rs w))
      (sym (opened_bind (λ b. bind_work (bind_send b) b) a w c))
      (bind_sent bind_request "queue.bind" a d answer rs w fine o calm replies),
  subst (Returns (Bound unbind_request a d rs w))
      (sym (opened_bind (λ b. bind_work (unbind_send b) b) a w c))
      (bind_sent unbind_request "queue.unbind" a d answer rs w fine o calm replies),
)
