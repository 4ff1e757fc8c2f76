-- ===== src/Synchronous/Answered.antt =====
-- The methods that return what the broker answers, and keep the buffers of the channel.
use Prim.Native.String.{String}
use librabbitmq.Base.{ℕ, ◌≡◌, ◌∙◌, refl, ap, sym, subst, false, Option, none, some, List, ◌∷◌}
use librabbitmq.Base.Cmd.{Cmd, ok, Returns, Returns-mono}
use librabbitmq.Py.{Py, str}
use librabbitmq.Py.Text.{utf8_encode}
use librabbitmq.Py.Text.Laws.{utf8_decode-utf8_encode}
use librabbitmq.Py.Held.Laws.{xdecref_held-err}
use librabbitmq.Amqp.{AmqpBytes}
use librabbitmq.Amqp.Read.{string_from_amqbytes}
use librabbitmq.World.{World, Call, alive, RpcReply, normal, Decoded, get_rpc_reply}
use librabbitmq.Errors.{handle_amq_error, handle_with}
use librabbitmq.Synchronous.{handled, synchronous}
use librabbitmq.Synchronous.Sent.{Holds}

-- The value is returned, with no exception set and the object unchanged; the calls behind `calls` are
-- the request and the one for its answer, which has been taken.
abbrev pub Answered :
    {B : Type 0} → B → List RpcReply → Call → List Call → World → Option B → World → Type 0
Answered b rs c calls w x v =
    (x ≡ some b)
    × (v.trace ≡ get_rpc_reply ∷ c ∷ calls)
    × (v.lib.replies ≡ rs)
    × (v.py.err ≡ none)
    × (v.self ≡ w.self)

-- A text that the broker sends.
pub string_from_amqbytes-utf8_encode :
    (name : AmqpBytes) (cs : List ℕ) (s : Py)
    → utf8_encode cs ≡ some name.bytes
    → string_from_amqbytes name s ≡ ok (str cs) s
unfolding string_from_amqbytes
string_from_amqbytes-utf8_encode name cs s e =
    rw (string_from_amqbytes, utf8_decode-utf8_encode cs name.bytes e) refl

abbrev at : World → List RpcReply → World
at w rs = record w { self = record self { conn = alive }; lib = record lib { replies = rs } }
  where
    open w use {self, lib}

module _ {B : Type 0} (context : String) (next : RpcReply → Cmd World (Option B)) (d : Decoded)
    (b : B) (ends : (w : World) → next (normal d) w ≡ ok (some b) w) (rs : List RpcReply) where
  accepted_at :
      (ch : ℕ) (c : Call) (w : World)
      → w.py.err ≡ none
      → Returns
          (Answered b rs c w.trace (at w (normal d ∷ rs)))
          (synchronous false ch c context next (at w (normal d ∷ rs)))
  unfolding synchronous handled handle_amq_error handle_with
  accepted_at ch c w calm = rw ends (refl, refl, refl, xdecref_held-err w.py ∙ calm, refl)

  -- The rest of the method, where the broker accepts.
  pub answered :
      (w0 : World) (calls : List Call) (ch : ℕ) (c : Call) (w : World)
      → w0.lib.replies ≡ normal d ∷ rs
      → Holds w0 calls w
      → Returns (Answered b rs c calls w0) (synchronous false ch c context next w)
  answered w0 calls ch c w e h =
      Returns-mono (Answered b rs c w.trace w) (Answered b rs c calls w0) _
        (subst (λ v. Returns (Answered b rs c v.trace v) (synchronous false ch c context next v))
          (sym same) (accepted_at ch c w h.1))
        (λ x v p. (p.0, p.1 ∙ ap (λ y. get_rpc_reply ∷ c ∷ y) h.4, p.2, p.3, p.4 ∙ h.2))
    where
      replies : w.lib.replies ≡ normal d ∷ rs
      replies = ap (λ l. l.replies) h.3 ∙ e

      same : w ≡ at w (normal d ∷ rs)
      same = λ i. record w {
        self = record self { conn = h.0.alive_ i };
        lib = record lib { replies = replies i };
      }
        where
          open w use {self, lib}
