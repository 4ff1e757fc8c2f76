-- ===== src/Errors/Refusals.antt =====
-- Attempts to open a channel that the server refuses with a channel exception.
use librabbitmq.Base.{
  ℕ, ◌≡◌, refl, sym, ap, subst, Bool, true, false, Option, some, List, [], ◌∷◌, ◌++◌,
}
use librabbitmq.Base.Int.{ℤ, pos}
use librabbitmq.Base.Cmd.{Returns, Returns-bind}
use librabbitmq.Py.{PyErr, channel_error, server_channel_error}
use librabbitmq.World.{
  World, Decoded, alive, Call, channel_open, channel_close_ok, get_rpc_reply, RpcReply, normal,
  server_exception, channel_close,
}
use librabbitmq.World.Open.{IsAlive}
use librabbitmq.Errors.{
  channel_failed, chan_error, handle_with, failed_status, revive_send, revive_with, create_on,
  create_channel,
}

-- What a channel exception says: its code and its text.
pub record Refusal : Type 0 where
  pub code : ℕ
  pub reason : List ℕ

-- A row of channel exceptions, one for each attempt to open the channel that is refused.
abbrev pub refusals : List Refusal → List RpcReply → List RpcReply
refusals [] rs = rs
refusals (x ∷ xs) rs = server_exception (channel_close x.code x.reason) ∷ refusals xs rs

-- A close-ok can be sent for each of them.
abbrev pub accepted : List Refusal → List ℤ
accepted [] = []
accepted (x ∷ xs) = pos 0 ∷ accepted xs

-- The calls of the attempts, the newest first. After a refusal the close-ok and the next attempt are
-- for channel 0.
abbrev pub attempts : List Refusal → ℕ → List Call → List Call
attempts [] ch calls = get_rpc_reply ∷ channel_open ch ∷ calls
attempts (x ∷ xs) ch calls =
    attempts xs 0 (channel_close_ok 0 ∷ get_rpc_reply ∷ channel_open ch ∷ calls)

abbrev pub refusal_error : Refusal → PyErr
refusal_error x = channel_error (server_channel_error "Couldn't create channel" x.code x.reason)

abbrev pub is_refused : List Refusal → Bool
is_refused [] = false
is_refused (x ∷ xs) = true

-- The exception that is set in the end: that of the last refusal.
abbrev pub error_after : List Refusal → Option PyErr → Option PyErr
error_after [] e = e
error_after (x ∷ xs) e = error_after xs (some (refusal_error x))

-- What the attempts leave.
abbrev pub Ended : List Refusal → ℕ → List RpcReply → List ℤ → World → Bool → World → Type 0
Ended xs ch rs zs w failed v =
    (failed ≡ is_refused xs)
    × (v.trace ≡ attempts xs ch w.trace)
    × (v.py.err ≡ error_after xs w.py.err)
    × (v.lib.replies ≡ rs)
    × (v.lib.statuses ≡ zs)
    × IsAlive v

abbrev at : World → List RpcReply → List ℤ → World
at w rs zs = record w {
  self = record self { conn = alive };
  lib = record lib { replies = rs; statuses = zs };
}
  where
    open w use {self, lib}

-- After a refusal, where the next attempt begins.
abbrev again : Refusal → ℕ → World → World
again x ch w = record w {
  py = record py { err = some (refusal_error x) };
  trace = channel_close_ok 0 ∷ get_rpc_reply ∷ channel_open ch ∷ trace;
}
  where
    open w use {py, trace}

attempts_end :
    (xs : List Refusal) (ch : ℕ) (d : Decoded) (rs : List RpcReply) (zs : List ℤ) (w : World)
    → Returns (Ended xs ch rs zs w) (
        create_on
          (refusals xs (normal d ∷ rs))
          ch
          (at w (refusals xs (normal d ∷ rs)) (accepted xs ++ zs)))
unfolding create_on handle_with chan_error revive_with revive_send
attempts_end [] ch d rs zs w = (refl, refl, refl, refl, refl, record { alive_ = refl })
attempts_end (x ∷ xs) ch d rs zs w =
    Returns-bind (λ z v. (z ≡ channel_failed) × Ended xs 0 rs zs (again x ch w) (is_refused xs) v)
      (Ended (x ∷ xs) ch rs zs w) _ _
      (Returns-bind (Ended xs 0 rs zs (again x ch w)) _ _ _
        (attempts_end xs 0 d rs zs (again x ch w))
        (λ b v p. (refl, (refl, p.1, p.2, p.3, p.4, p.5))))
      (λ z v p. (ap failed_status p.0, p.1.1, p.1.2, p.1.3, p.1.4, p.1.5))

-- Where the first attempts to open a channel are refused with channel exceptions, whatever their
-- codes and texts, each close-ok can be sent, and the attempt after them is accepted, the function
-- returns: with success where none was refused, else with a failure and the exception of the last
-- refusal. Every close-ok, and every attempt but the first, is for channel 0; no other call is made,
-- and the pointer can still be followed.
pub create_channel_refused :
    (xs : List Refusal) (ch : ℕ) (d : Decoded) (rs : List RpcReply) (zs : List ℤ) (w : World)
    → IsAlive w
    → w.lib.replies ≡ refusals xs (normal d ∷ rs)
    → w.lib.statuses ≡ accepted xs ++ zs
    → Returns (Ended xs ch rs zs w) (create_channel ch w)
unfolding create_channel
create_channel_refused xs ch d rs zs w o r z =
    subst (λ v. Returns (Ended xs ch rs zs v) (create_on v.lib.replies ch v)) (sym same)
      (attempts_end xs ch d rs zs w)
  where
    same : w ≡ at w (refusals xs (normal d ∷ rs)) (accepted xs ++ zs)
    same = λ i. record w {
      self = record self { conn = o.alive_ i };
      lib = record lib { replies = r i; statuses = z i };
    }
      where
        open w use {self, lib}
