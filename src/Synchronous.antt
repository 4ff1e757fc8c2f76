-- ===== src/Synchronous.antt =====
-- What the synchronous methods of connection.c have in common: `goto bail`, the encoding of their
-- text arguments, the conversion of the dict `arguments`, and the handling of the answer.
pub mod Clean
pub mod Sent
pub mod Answered
pub mod Keeps
use Prim.Native.String.{String}
use librabbitmq.Base.{ℕ, Bool, true, false, Option, none, some, Top, if◌then◌else◌}
use librabbitmq.Base.Cmd.{Cmd, ok, pure, ◌>>=◌, ◌>>◌}
use librabbitmq.Py.{
  PyVal, null, none_, bool, int, float, str, bytes, dict, list, tuple, other, err_occurred,
  type_error,
}
use librabbitmq.Py.Held.{Object, maybe_unicode, xdecref_held}
use librabbitmq.Amqp.{Entries}
use librabbitmq.Amqp.Build.{dict_to_table}
use librabbitmq.World.{
  as_channel, World, Call, RpcReply, channel_pool, get_rpc_reply, release_on_channel,
}
use librabbitmq.World.Calls.{lift, raise, call, next_reply}
use librabbitmq.Errors.{not_connected, handle_amq_error, failed_status}

-- `PyObjectArray_XDECREF(&pyobj_array)`.
abbrev pub release_held : Cmd World Top
release_held w = ok tt (record w { py = xdecref_held w.py })

-- The label `bail`.
abbrev pub bail : {A : Type 0} → Cmd World (Option A)
bail = release_held >> pure none

-- The object is connected and the arguments parse, or the method fails.
unfoldable pub opened :
    {A B : Type 0} → Option A → (A → Cmd World (Option B)) → Cmd World (Option B)
unfolding not_connected
opened args work = do
  refused ← not_connected
  if refused then bail else elim args [ none ↦ raise type_error >> bail | some a ↦ work a ]

abbrev pub unless_null : {B : Type 0} → PyVal → Cmd World (Option B) → Cmd World (Option B)
unless_null null next = bail
unless_null none_ next = next
unless_null (bool b) next = next
unless_null (int z) next = next
unless_null (float d) next = next
unless_null (str cs) next = next
unless_null (bytes bs) next = next
unless_null (dict d) next = next
unless_null (list sq) next = next
unless_null (tuple sq) next = next
unless_null other next = next

-- `PyObjectArray_Maybe_Unicode` of an argument, or `bail`.
unfoldable pub named : {B : Type 0} → PyVal → (Object → Cmd World (Option B)) → Cmd World (Option B)
unfolding maybe_unicode
named v next = do o ← lift (maybe_unicode v); unless_null o.value (next o)

-- The pool of the channel, which is had, and the table of `arguments`, unless there is an exception.
unfoldable pub with_table :
    {B : Type 0} → ℕ → PyVal → (Entries → Cmd World (Option B)) → Cmd World (Option B)
unfolding dict_to_table
with_table channel arguments next = do
  call (channel_pool (as_channel channel))
  t ← lift (dict_to_table arguments)
  (λ w. elim (err_occurred w.py) [ true ↦ bail w | false ↦ next t w ])

-- The answer is handled, and what follows gets it.
unfoldable pub handled :
    {B : Type 0} → ℕ → RpcReply → String → (RpcReply → Cmd World (Option B)) → Cmd World (Option B)
unfolding handle_amq_error
handled channel reply context next = do
  z ← handle_amq_error channel reply context
  if failed_status z then bail else next reply

-- A method is sent and its answer asked for; the buffers of the channel are released, if the method
-- does that, and the kept references.
unfoldable pub synchronous :
    {B : Type 0}
    → Bool
    → ℕ
    → Call
    → String
    → (RpcReply → Cmd World (Option B))
    → Cmd World (Option B)
unfolding handled
synchronous releases channel c context next = do
  call c
  call get_rpc_reply
  reply ← next_reply
  if releases then call (release_on_channel channel) else pure tt
  release_held
  handled channel reply context next

-- The methods that return None.
abbrev pub return_none : RpcReply → Cmd World (Option Top)
return_none reply = pure (some tt)
