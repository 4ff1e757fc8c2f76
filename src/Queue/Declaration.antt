-- ===== src/Queue/Declaration.antt =====
-- `_queue_declare` where the broker accepts it.
use librabbitmq.Base.{ℕ, ◌≡◌, refl, sym, subst, true, Option, none, some, List, ◌∷◌}
use librabbitmq.Base.Cmd.{ok, Returns, Returns-mono}
use librabbitmq.Py.{PyItems, str, dict}
use librabbitmq.Py.Text.{utf8_encode}
use librabbitmq.Amqp.{AmqpBytes, Entries, string_as_amqbytes}
use librabbitmq.Amqp.Encodes.{IsKey, KeyEncodes, IsCleanItems, EncodesItems}
use librabbitmq.World.{
  as_channel, World, Call, RpcReply, normal, queue_declare_ok, channel_pool, get_rpc_reply,
  queue_declare,
}
use librabbitmq.World.Open.{IsAlive}
use librabbitmq.Synchronous.Answered.{Answered, answered, string_from_amqbytes-utf8_encode}
use librabbitmq.Synchronous.Sent.{opened_work, named_sent, table_of}
use librabbitmq.Queue.{DeclareArgs, Declared, declared, queue_declare_work, queue_declare_method}

-- The request.
abbrev pub declare_request : DeclareArgs → AmqpBytes → Entries → Call
declare_request a q t = queue_declare a.channel q a.passive a.durable a.exclusive a.auto_delete t

-- The broker's answer is returned after these calls, whose request carries the name as it encodes and
-- a table that encodes the dict.
abbrev pub Announced :
    DeclareArgs → PyItems → Declared → List RpcReply → World → Option Declared → World → Type 0
Announced a d g rs w x v =
    (q : AmqpBytes) × (t : Entries) × KeyEncodes a.queue q.bytes
    × EncodesItems d t
    × (x ≡ some g)
    × (v.trace
        ≡ get_rpc_reply ∷ declare_request a q t ∷ channel_pool (as_channel a.channel) ∷ w.trace)
    × (v.lib.replies ≡ rs)
    × (v.py.err ≡ none)
    × (v.self ≡ w.self)

declared_ok :
    (name : AmqpBytes) (cs : List ℕ) (m n : ℕ) (w : World)
    → utf8_encode cs ≡ some name.bytes
    → declared (normal (queue_declare_ok name m n)) w
      ≡ ok (some (record { queue = str cs; message_count = m; consumer_count = n })) w
unfolding declared
declared_ok name cs m n w e = rw (declared, string_from_amqbytes-utf8_encode name cs w.py e) refl

-- On an open connection with no exception set, where the queue's name can be encoded, the arguments
-- are a clean dict and the broker accepts and names the queue by a text: declaring it returns that
-- text and the two counts of the answer. The method makes exactly three calls: for the channel's
-- memory, the request, and for its answer. The request carries the name as it encodes and a table
-- that encodes the dict.
pub queue_declare_accepted :
    (a : DeclareArgs) (d : PyItems) (name : AmqpBytes) (cs : List ℕ) (m n : ℕ) (rs : List RpcReply)
    (w : World)
    → IsKey a.queue
    → a.arguments ≡ dict d
    → IsCleanItems d
    → IsAlive w
    → w.self.connected ≡ true
    → w.py.err ≡ none
    → w.lib.replies ≡ normal (queue_declare_ok name m n) ∷ rs
    → utf8_encode cs ≡ some name.bytes
    → Returns
        (Announced a d (record { queue = str cs; message_count = m; consumer_count = n }) rs w)
        (queue_declare_method (some a) w)
unfolding queue_declare_method queue_declare_work string_as_amqbytes
queue_declare_accepted a d name cs m n rs w key say clean o c calm e encoded =
    subst (Returns result) (sym (opened_work queue_declare_work a w c)) (
      named_sent w w.trace result a.queue _ w key
        (record { alive_ = o.alive_ }, calm, refl, refl, refl)
        (λ qs qr w1 ke h1.
          table_of w w.trace result a.channel a.arguments d _ w1 say clean h1 (λ t w2 te h2.
            let q : AmqpBytes = record { bytes = qs; owner = qr } in
            Returns-mono
              (Answered answer rs (declare_request a q t)
                (channel_pool (as_channel a.channel) ∷ w.trace) w)
              result _
              (answered "queue.declare" declared (queue_declare_ok name m n) answer
                (λ v. declared_ok name cs m n v encoded) rs w
                (channel_pool (as_channel a.channel) ∷ w.trace) a.channel (declare_request a q t) w2
                e h2)
              (λ x v p. (q, t, ke, te, p.0, p.1, p.2, p.3, p.4)))))
  where
    answer : Declared
    answer = record { queue = str cs; message_count = m; consumer_count = n }

    result : Option Declared → World → Type 0
    result = Announced a d answer rs w
