-- ===== src/Lib.antt =====
-- librabbitmq: the C extension Modules/_librabbitmq/connection.c, with connection.h, behind the
-- Python package librabbitmq. A `Connection` object owns a state of the C library rabbitmq-c; its
-- methods convert their arguments, call that library, and turn what the broker answers into Python
-- values and exceptions.
--
-- Parts and files:
--   Base, Base/Int, Base/Double, Base/Cmd, Base/Keeps   shared names; C's integer conversions, with the
--     wrap-around written out; numbers of type `double`, with their rounding; runs of C code over a state, which return a value, crash, or wait for good; rules
--     for predicates that a run keeps, one for each way to build a run. The modules called Keeps, and
--     World/OnSelf, apply them to the functions of their parent.
--   Py, Py/Text, Py/Objects, Py/Held   what the code sees of the interpreter: values, the error
--     indicator, reference counts, the ASCII and UTF-8 codecs of str, and the array of kept references
--     (`pyobject_array_t`, `PyObjectArray_*`).
--   Amqp, Amqp/Table, Amqp/Array   the tables of rabbitmq-c and the setters `AMQTable_*`, `AMQArray_*`.
--   Amqp/Build, Amqp/Read   `PyDict_ToAMQTable` and `PyIter_ToAMQArray`; `AMQTable_toPyDict` and
--     `AMQArray_toPyList`. Amqp/Encodes states independently of them what a table says of a dict.
--   Message   `basic_properties_to_PyDict` and `amqp_basic_deliver_to_PyDict`, with the dicts by what
--     they have under each name (Message/Items, Message/Dict).
--   World, World/Calls, World/Open   the state of a method: interpreter, `PyRabbitMQ_Connection`,
--     library. The object is sound while it is not connected or its `conn` leads to a state that the
--     library holds.
--   Errors   the functions under "Error Handlers", `PyRabbitMQ_Connection_close`, and
--     `PyRabbitMQ_revive_channel` and `PyRabbitMQ_Connection_create_channel`, which the handler calls
--     and which call it.
--   Lifecycle   `__new__`, `__init__`, `fileno`, `connect` (Lifecycle/Connect where it fails, and
--     Lifecycle/Login and Lifecycle/Connected where it succeeds), opening and closing a channel.
--   Receive   `PyRabbitMQ_recv` with its stages (Receive/Opening, Receive/Fragments), the dispatch to
--     the callback (Receive/Callback), `_basic_recv` (Receive) and `_basic_get` (Receive/Get).
--     Receive/Waiting is `RabbitMQ_wait_nb` and `RabbitMQ_wait_timeout`.
--   Basic   `_basic_ack`, `_basic_reject`, `_basic_qos`, `_flow` and `_basic_recover`.
--   Synchronous   what the methods with text arguments share: `goto bail`, encoding, `arguments`, the
--     answer. Queue has `_queue_*` and `_exchange_*`, Consumer `_basic_consume` and `_basic_cancel`.
--   Publish   `_basic_publish`, and `PyDict_to_basic_properties` (Publish/Properties).
--   Ledger   the references of an operation from the start of a call to its end, on every path.
--   Session   the table of methods as a relation between states: one call after another, with any
--     arguments, and any change outside of the object in between (`Step`, `Reach`).
--   Tests   concrete runs.
--
-- The model. A function of the source that can fail is a `Cmd`: it takes the state and gives a `Run`.
-- `crash` stands for undefined behaviour of C: a NULL or dangling pointer that is followed, a write
-- behind a buffer. A Python exception is no crash: it is `err` of the interpreter. A method that
-- returns NULL gives `none`.
--
-- The library rabbitmq-c is not part of the repository. `Script` holds what its calls return, in the
-- order in which they are asked (replies, frames, statuses, whether data is buffered), and what the
-- handshake settles; `trace` holds the calls that the code makes. Nothing is assumed about the script.
-- Where it has no more results a call does not return, and the run is `blocked`. Calls through `conn`
-- crash unless the pointer leads to a state that the library holds. In the same way `Caller` holds how
-- the calls of Python code end, and the script what each call of `select` returns, with what
-- the clock says before and after it. Arithmetic on `double` is rounded as IEEE 754 says.
--
-- Loops. The conversions recur on the value. Loops that wait for frames recur on the frames that
-- are to come, and `create_channel`, which calls itself through the error handler, on the replies
-- that are to come; the loop on `select` recurs on its calls: each round takes one, so there is no
-- fuel, and a run beyond the script blocks.
--
-- Assumed: CPython 3 on a 64-bit system, a build with NDEBUG, so that `assert` does nothing, and
-- allocations that succeed. A float is its IEEE bit pattern, and a 32-bit float of a table is the
-- double that it widens to. Text arguments of `__init__` are their UTF-8 bytes. A body is shorter
-- than 2 ^ 63 bytes, and a fragment than 2 ^ 32.
--
-- Python's own objects do not run code of their own: no `__index__`, no float as an int, and a
-- callback does not call the connection that it was called by.
--
-- Not modelled: `select` and the clock (what they return is part of the script), `__repr__`,
-- deallocation and the module's set-up, and the Python package. The references of the dicts that
-- `PyRabbitMQ_recv` builds and gives back are not counted; of the arguments' own references only the
-- one that `_basic_publish` takes to its property dict is.
pub mod Base
pub mod Py
pub mod Amqp
pub mod World
pub mod Message
pub mod Errors
pub mod Lifecycle
pub mod Receive
pub mod Basic
pub mod Synchronous
pub mod Queue
pub mod Consumer
pub mod Publish
pub mod Ledger
pub mod Session
pub mod Tests
