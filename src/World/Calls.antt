-- ===== src/World/Calls.antt =====
-- How the methods touch the world: an exception is set, a call is made, a result is taken from the
-- script. Where the script has no more results the call does not return.
use librabbitmq.Base.{Bool, Option, List, [], ◌∷◌, Top}
use librabbitmq.Base.Int.{ℤ}
use librabbitmq.Base.Cmd.{Run, ok, crash, blocked, Cmd}
use librabbitmq.Py.{Py, PyErr, set_err}
use librabbitmq.World.{
  World, Connection, Call, RpcReply, Wait, Selection, Pointer, null, alive, dangling,
}

-- A step of the interpreter alone.
abbrev pub with_py : {A : Type 0} → World → Run Py A → Run World A
with_py w (ok a s) = ok a (record w { py = s })
with_py w crash = crash
with_py w blocked = blocked

abbrev pub lift : {A : Type 0} → Cmd Py A → Cmd World A
lift m w = with_py w (m w.py)

-- `PyErr_SetString`.
abbrev pub raised : PyErr → World → World
raised e w = record w { py = set_err e w.py }

abbrev pub raise : PyErr → Cmd World Top
raise e w = ok tt (raised e w)

abbrev pub called : Call → World → World
called c w = record w { trace = c ∷ w.trace }

-- A call that goes to the library's state through `conn`: it crashes where there is none, or where
-- it has been destroyed.
abbrev pub use_pointer : Pointer → Call → Cmd World Top
use_pointer alive c w = ok tt (called c w)
use_pointer null c w = crash
use_pointer dangling c w = crash

abbrev pub call : Call → Cmd World Top
call c w = use_pointer w.self.conn c w

abbrev pub set_self : (Connection → Connection) → Cmd World Top
set_self f w = ok tt (record w { self = f w.self })

-- The next status.
abbrev pub take_status : List ℤ → Cmd World ℤ
take_status [] w = blocked
take_status (z ∷ zs) w = ok z (record w { lib = record lib { statuses = zs } })
  where
    open w use {lib}

abbrev pub next_status : Cmd World ℤ
next_status w = take_status w.lib.statuses w

-- The next reply.
abbrev pub take_reply : List RpcReply → Cmd World RpcReply
take_reply [] w = blocked
take_reply (r ∷ rs) w = ok r (record w { lib = record lib { replies = rs } })
  where
    open w use {lib}

abbrev pub next_reply : Cmd World RpcReply
next_reply w = take_reply w.lib.replies w

-- The next frame, or failure, of a wait.
abbrev pub take_frame : List Wait → Cmd World Wait
take_frame [] w = blocked
take_frame (f ∷ fs) w = ok f (record w { lib = record lib { frames = fs } })
  where
    open w use {lib}

abbrev pub next_frame : Cmd World Wait
next_frame w = take_frame w.lib.frames w

-- Whether there is something in a buffer.
abbrev pub take_buffered : List Bool → Cmd World Bool
take_buffered [] w = blocked
take_buffered (b ∷ bs) w = ok b (record w { lib = record lib { buffered = bs } })
  where
    open w use {lib}

abbrev pub next_buffered : Cmd World Bool
next_buffered w = take_buffered w.lib.buffered w

-- The next call of `select`.
abbrev pub take_poll : List Selection → Cmd World Selection
take_poll [] w = blocked
take_poll (z ∷ zs) w = ok z (record w { lib = record lib { polls = zs } })
  where
    open w use {lib}

abbrev pub next_poll : Cmd World Selection
next_poll w = take_poll w.lib.polls w

-- A call to which no answer comes.
abbrev pub waits : {A : Type 0} → Cmd World A
waits w = blocked

-- How the next call of Python code ends.
abbrev pub take_outcome : List (Option PyErr) → Cmd World (Option PyErr)
take_outcome [] w = blocked
take_outcome (o ∷ os) w = ok o (record w { caller = record caller { outcomes = os } })
  where
    open w use {caller}

abbrev pub next_outcome : Cmd World (Option PyErr)
next_outcome w = take_outcome w.caller.outcomes w
