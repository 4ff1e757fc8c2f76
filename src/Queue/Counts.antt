-- ===== src/Queue/Counts.antt =====
-- The counts that purging and deleting a queue return, where the broker accepts.
use librabbitmq.Base.{ℕ, ◌≡◌, ◌∙◌, refl, ap, sym, subst, true, Option, none, some, List, ◌∷◌}
use librabbitmq.Base.Cmd.{Cmd, ◌>>=◌, Returns, Returns-mono}
use librabbitmq.Py.Held.Laws.{xdecref_held-err}
use librabbitmq.Amqp.{AmqpBytes, string_as_amqbytes}
use librabbitmq.Amqp.Encodes.{KeyEncodes, IsKey}
use librabbitmq.World.{
  World, Call, alive, RpcReply, normal, queue_purge_ok, queue_delete_ok, get_rpc_reply,
  release_on_channel, queue_purge, queue_delete,
}
use librabbitmq.World.Open.{IsAlive}
use librabbitmq.Errors.{handle_amq_error, handle_with}
use librabbitmq.Synchronous.{handled, synchronous}
use librabbitmq.Synchronous.Sent.{opened_work, Holds, named_sent}
use librabbitmq.Py.{PyVal}
use librabbitmq.World.Calls.{lift}
use librabbitmq.Queue.{
  with_queue, PurgeArgs, purged, purge_work, queue_purge_method, DeleteArgs, delete_answered,
  delete_work, queue_delete_method,
}

-- The method returns the count, after these calls; the answer has been taken.
abbrev pub Counted : World → List RpcReply → List Call → ℕ → Option ℕ → World → Type 0
Counted w0 rs calls n r v =
    (r ≡ some n) × (v.trace ≡ calls) × (v.lib.replies ≡ rs) × (v.py.err ≡ none) × (v.self ≡ w0.self)

abbrev at : World → List RpcReply → World
at w rs = record w { self = record self { conn = alive }; lib = record lib { replies = rs } }
  where
    open w use {self, lib}

at-same :
    (w0 : World) (calls : List Call) (w : World) (rs : List RpcReply)
    → Holds w0 calls w
    → w0.lib.replies ≡ rs
    → w ≡ at w rs
at-same w0 calls w rs h e = λ i. record w {
  self = record self { conn = h.0.alive_ i };
  lib = record lib { replies = replies i };
}
  where
    replies : w.lib.replies ≡ rs
    replies = ap (λ l. l.replies) h.3 ∙ e

    open w use {self, lib}

purged_at :
    (a : PurgeArgs) (n : ℕ) (q : AmqpBytes) (rs : List RpcReply) (w : World)
    → w.py.err ≡ none
    → Returns
        (Counted
          (at w (normal (queue_purge_ok n) ∷ rs))
          rs
          (release_on_channel a.channel ∷ get_rpc_reply ∷ queue_purge a.channel q ∷ w.trace)
          n)
        (purge_work a q (at w (normal (queue_purge_ok n) ∷ rs)))
unfolding purge_work synchronous handled handle_amq_error handle_with purged
purged_at a n q rs w calm = (refl, refl, refl, xdecref_held-err w.py ∙ calm, refl)

deleted_at :
    (a : DeleteArgs) (n : ℕ) (q : AmqpBytes) (rs : List RpcReply) (w : World)
    → w.py.err ≡ none
    → Returns
        (Counted
          (at w (normal (queue_delete_ok n) ∷ rs))
          rs
          (release_on_channel a.channel ∷ queue_delete a.channel q a.if_unused a.if_empty ∷ w.trace)
          n)
        (delete_work a q (at w (normal (queue_delete_ok n) ∷ rs)))
unfolding delete_work delete_answered
deleted_at a n q rs w calm = (refl, refl, refl, xdecref_held-err w.py ∙ calm, refl)

-- The count is returned, and the name was sent as it encodes.
abbrev pub Purged : PurgeArgs → ℕ → List RpcReply → World → Option ℕ → World → Type 0
Purged a n rs w x v =
    (q : AmqpBytes) × KeyEncodes a.queue q.bytes
    × Counted w rs
        (release_on_channel a.channel ∷ get_rpc_reply ∷ queue_purge a.channel q ∷ w.trace) n x v

abbrev pub Deleted : DeleteArgs → ℕ → List RpcReply → World → Option ℕ → World → Type 0
Deleted a n rs w x v =
    (q : AmqpBytes) × KeyEncodes a.queue q.bytes
    × Counted w rs
        (release_on_channel a.channel ∷ queue_delete a.channel q a.if_unused a.if_empty ∷ w.trace) n
        x v

queue_sent :
    (Q : Option ℕ → World → Type 0) (v : PyVal) (work : AmqpBytes → Cmd World (Option ℕ))
    (w : World)
    → IsKey v
    → Holds w w.trace w
    → ((q : AmqpBytes) (w1 : World)
        → KeyEncodes v q.bytes
        → Holds w w.trace w1
        → Returns Q (work q w1))
    → Returns Q (with_queue v work w)
unfolding with_queue string_as_amqbytes
queue_sent Q v work w key h go =
    named_sent w w.trace Q v (λ o. do q ← lift (string_as_amqbytes o); work q) w key h
      (λ bs r w1 k h1. go (record { bytes = bs; owner = r }) w1 k h1)

-- What is known at `w` holds at the world after the name was encoded.
moved :
    (w0 w : World) (rs : List RpcReply) (c : List Call → List Call) (n : ℕ) (x : Option ℕ)
    (v : World)
    → Holds w0 w0.trace w
    → Counted w rs (c w.trace) n x v
    → Counted w0 rs (c w0.trace) n x v
moved w0 w rs c n x v h p = (p.0, p.1 ∙ ap c h.4, p.2, p.3, p.4 ∙ h.2)

purge_sent :
    (a : PurgeArgs) (n : ℕ) (rs : List RpcReply) (w0 w : World) (q : AmqpBytes)
    → KeyEncodes a.queue q.bytes
    → w0.lib.replies ≡ normal (queue_purge_ok n) ∷ rs
    → Holds w0 w0.trace w
    → Returns (Purged a n rs w0) (purge_work a q w)
purge_sent a n rs w0 w q k e h =
    Returns-mono
      (Counted w rs
        (release_on_channel a.channel ∷ get_rpc_reply ∷ queue_purge a.channel q ∷ w.trace) n)
      (Purged a n rs w0) _
      (subst
        (λ v.
          Returns
            (Counted v rs
              (release_on_channel a.channel ∷ get_rpc_reply ∷ queue_purge a.channel q ∷ v.trace) n)
            (purge_work a q v))
        (sym (at-same w0 w0.trace w (normal (queue_purge_ok n) ∷ rs) h e))
        (purged_at a n q rs w h.1))
      (λ x v p. (
        q,
        k,
        moved w0 w rs
            (λ y. release_on_channel a.channel ∷ get_rpc_reply ∷ queue_purge a.channel q ∷ y) n x v
            h p,
      ))

delete_sent :
    (a : DeleteArgs) (n : ℕ) (rs : List RpcReply) (w0 w : World) (q : AmqpBytes)
    → KeyEncodes a.queue q.bytes
    → w0.lib.replies ≡ normal (queue_delete_ok n) ∷ rs
    → Holds w0 w0.trace w
    → Returns (Deleted a n rs w0) (delete_work a q w)
delete_sent a n rs w0 w q k e h =
    Returns-mono
      (Counted w rs
        (release_on_channel a.channel ∷ queue_delete a.channel q a.if_unused a.if_empty ∷ w.trace)
        n)
      (Deleted a n rs w0) _
      (subst
        (λ v.
          Returns
            (Counted v rs
              (release_on_channel a.channel
                ∷ queue_delete a.channel q a.if_unused a.if_empty
                ∷ v.trace)
              n)
            (delete_work a q v))
        (sym (at-same w0 w0.trace w (normal (queue_delete_ok n) ∷ rs) h e))
        (deleted_at a n q rs w h.1))
      (λ x v p. (
        q,
        k,
        moved w0 w rs
            (λ y.
              release_on_channel a.channel ∷ queue_delete a.channel q a.if_unused a.if_empty ∷ y)
            n x v h p,
      ))

-- On an open connection with no exception set, where the queue's name can be encoded and the broker
-- accepts, purging a queue returns the number of messages that the broker purged.
-- The request carries the name as it encodes, and no call is made but to send it, to ask for its
-- answer and to release buffers.
pub queue_purge_accepted :
    (a : PurgeArgs) (n : ℕ) (rs : List RpcReply) (w : World)
    → IsKey a.queue
    → IsAlive w
    → w.self.connected ≡ true
    → w.py.err ≡ none
    → w.lib.replies ≡ normal (queue_purge_ok n) ∷ rs
    → Returns (Purged a n rs w) (queue_purge_method (some a) w)
unfolding queue_purge_method
queue_purge_accepted a n rs w key o c calm e =
    subst (Returns (Purged a n rs w))
      (sym (opened_work (λ b. with_queue b.queue (purge_work b)) a w c))
      (queue_sent (Purged a n rs w) a.queue (purge_work a) w key
        (record { alive_ = o.alive_ }, calm, refl, refl, refl)
        (λ q w1 k h. purge_sent a n rs w w1 q k e h))

-- On an open connection with no exception set, where the queue's name can be encoded and the broker
-- accepts, deleting a queue returns the number of messages that the broker deleted with it.
-- The request carries the name as it encodes, and no call is made but to send it and to release
-- buffers.
pub queue_delete_accepted :
    (a : DeleteArgs) (n : ℕ) (rs : List RpcReply) (w : World)
    → IsKey a.queue
    → IsAlive w
    → w.self.connected ≡ true
    → w.py.err ≡ none
    → w.lib.replies ≡ normal (queue_delete_ok n) ∷ rs
    → Returns (Deleted a n rs w) (queue_delete_method (some a) w)
unfolding queue_delete_method
queue_delete_accepted a n rs w key o c calm e =
    subst (Returns (Deleted a n rs w))
      (sym (opened_work (λ b. with_queue b.queue (delete_work b)) a w c))
      (queue_sent (Deleted a n rs w) a.queue (delete_work a) w key
        (record { alive_ = o.alive_ }, calm, refl, refl, refl)
        (λ q w1 k h. delete_sent a n rs w w1 q k e h))
