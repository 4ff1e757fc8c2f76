-- ===== src/Amqp.antt =====
-- AMQP values as connection.c handles them: `amqp_bytes_t`, `amqp_field_value_t`, `amqp_table_t`,
-- `amqp_array_t`, and the functions of "AMQP Utils" that fill a table or an array.
pub mod Table
pub mod Array
pub mod Build
pub mod Read
pub mod Encodes
use librabbitmq.Base.{ℕ, zero, suc, ◌≡◌, refl, Option, none, some, List, ltb, if◌then◌else◌}
use librabbitmq.Base.Int.{ℤ}
use librabbitmq.Base.Cmd.{Cmd, pure, fail}
use librabbitmq.Py.{Py, PyVal, bytes}
use librabbitmq.Py.Held.{Object}

-- `amqp_bytes_t`: the bytes, and the object that was created for them, if one was. Otherwise they
-- belong to the caller's objects, or to a frame.
pub record AmqpBytes : Type 0 where
  pub bytes : List ℕ
  pub owner : Option ℕ

-- A field value by its kind. The C integers are the numbers that they stand for, a float its bit
-- pattern, a boolean its `int`. `unknown` is any other kind.
mutual
  pub data FieldValue : Type 0 where
    void : FieldValue
    boolean : ℕ → FieldValue
    i8 i16 i32 i64 : ℤ → FieldValue
    u8 u16 u32 u64 : ℕ → FieldValue
    f32 f64 : ℕ → FieldValue
    utf8 : AmqpBytes → FieldValue
    table : Entries → FieldValue
    array : Values → FieldValue
    unknown : ℕ → FieldValue

  -- The entries of a table up to `num_entries`.
  pub data Entries : Type 0 where
    no_entries : Entries
    entry : AmqpBytes → FieldValue → Entries → Entries

  pub data Values : Type 0 where
    no_values : Values
    value : FieldValue → Values → Values

-- `num_entries`.
abbrev pub num_entries : Entries → ℕ
num_entries no_entries = 0
num_entries (entry k v es) = suc (num_entries es)

abbrev pub num_values : Values → ℕ
num_values no_values = 0
num_values (value v vs) = suc (num_values vs)

abbrev pub append_entries : Entries → Entries → Entries
append_entries no_entries fs = fs
append_entries (entry k v es) fs = entry k v (append_entries es fs)

abbrev pub append_values : Values → Values → Values
append_values no_values ws = ws
append_values (value v vs) ws = value v (append_values vs ws)

-- `PyString_AS_AMQBYTES`: it follows the pointer, so NULL, and what is no bytes object, is a crash.
unfoldable pub string_as_amqbytes : Object → Cmd Py AmqpBytes
string_as_amqbytes o = elim o.value [
  | bytes bs ↦ pure (record { bytes = bs; owner = o.ref })
  | _ ↦ fail
]
