-- ===== src/Py.antt =====
-- The Python side of Modules/_librabbitmq/connection.c: values, exceptions, and the state that the
-- C code reads and writes. Names and order of the tests are those of CPython 3 on a 64-bit system.
pub mod Text
pub mod Objects
pub mod Held
use librabbitmq.Base.{
  ℕ, ◌+◌, ◌-◌, Option, none, some, Bool, true, false, List, Top, ◌==◌, if◌then◌else◌,
}
use Prim.Native.String.{String}
use librabbitmq.Base.Int.{ℤ}
use librabbitmq.Base.Cmd.{Cmd, ok}
use Objects.{ObjectArray}

-- A Python value as the type tests of the C code tell it apart. A float is its IEEE bit pattern, a
-- text its code points. `null` is a NULL pointer, and the NULL slot of a list.
mutual
  pub data PyVal : Type 0 where
    null : PyVal
    none_ : PyVal
    bool : Bool → PyVal
    int : ℤ → PyVal
    float : ℕ → PyVal
    str : List ℕ → PyVal
    bytes : List ℕ → PyVal
    dict : PyItems → PyVal
    list : PySeq → PyVal
    tuple : PySeq → PyVal
    other : PyVal

  -- The pairs of a dict, in the order of `PyDict_Next`.
  pub data PyItems : Type 0 where
    nil : PyItems
    cons : PyVal → PyVal → PyItems → PyItems

  pub data PySeq : Type 0 where
    end : PySeq
    item : PyVal → PySeq → PySeq

-- What a connection or channel exception says: the context string and what stands behind it. The
-- numbers are reply codes, status codes and method ids; the lists are the broker's texts.
pub data Message : Type 0 where
  text : String → Message
  status : String → ℤ → Message
  missing_rpc_reply : String → Message
  library_error : String → ℤ → Message
  end_of_stream : String → Message
  server_connection_error : String → ℕ → List ℕ → Message
  server_channel_error : String → ℕ → List ℕ → Message
  unknown_server_error : String → ℕ → Message
  unexpected_header : ℕ → Message
  channel_error_frame connection_error_frame : ℕ → List ℕ → Message

pub data PyErr : Type 0 where
  value_error overflow_error unicode_encode_error unicode_decode_error : PyErr
  memory_error system_error type_error attribute_error os_error socket_timeout : PyErr
  connection_error channel_error : Message → PyErr

-- The interpreter as the code sees it: the error indicator; for each reference that the code
-- obtained, how often it is owned (references are numbered as they are created); the array that
-- the calls of one operation share by pointer; and how often the code gave back a reference that
-- it did not own.
pub record Py : Type 0 where
  pub err : Option PyErr
  pub owned : ℕ → ℕ
  pub fresh : ℕ
  pub held : ObjectArray
  pub excess : ℕ

abbrev pub update : (ℕ → ℕ) → ℕ → ℕ → ℕ → ℕ
update f i v j = if j == i then v else f j

-- `PyErr_SetString`, which replaces an exception that is set.
abbrev pub set_err : PyErr → Py → Py
set_err e s = record s { err = some e }

-- `PyErr_Occurred`.
abbrev pub err_occurred : Py → Bool
err_occurred s = elim s.err [ none ↦ false | some _ ↦ true ]

-- The state after a call that returned a new reference, which has the number `s.fresh`.
abbrev pub take_ref : Py → Py
take_ref s = record s { owned = update s.owned s.fresh (s.owned s.fresh + 1); fresh = s.fresh + 1 }

abbrev pub new_ref : Cmd Py ℕ
new_ref s = ok s.fresh (take_ref s)

-- `Py_XDECREF` of a reference, on the counts.
abbrev pub release : ℕ → Py → Py
release i s =
    if s.owned i == 0
    then record s { excess = s.excess + 1 }
    else record s { owned = update s.owned i (s.owned i - 1) }

abbrev pub xdecref : ℕ → Cmd Py Top
xdecref i s = ok tt (release i s)
