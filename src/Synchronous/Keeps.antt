-- ===== src/Synchronous/Keeps.antt =====
-- The synchronous methods, arguments of any kind: what holds until the kept references are released,
-- and what holds from then on.
use Prim.Native.String.{String}
use librabbitmq.Base.{ℕ, Bool, true, false, Option, none, some, List, Top}
use librabbitmq.Base.Cmd.{Cmd, ok, Ensures}
use librabbitmq.Base.Keeps.{
  Keeps, Ends, Keeps-pure, Keeps-bind, Keeps-if, Ends-bind, Ends-then, Ends-Keeps, Ends-if,
  Ends-seq_then,
}
use librabbitmq.Py.{
  PyVal, null, none_, bool, int, float, str, bytes, dict, list, tuple, other, err_occurred, set_err,
  unicode_decode_error,
}
use librabbitmq.Py.Text.{utf8_decode}
use librabbitmq.Py.Held.{Object, maybe_unicode, xdecref_held}
use librabbitmq.Amqp.{AmqpBytes, Entries, string_as_amqbytes}
use librabbitmq.Amqp.Build.{dict_to_table}
use librabbitmq.Amqp.Read.{string_from_amqbytes}
use librabbitmq.World.{World, Call, RpcReply}
use librabbitmq.World.Calls.{lift, with_py}
use librabbitmq.World.Keeps.{IsStable, raise-Keeps, call-Keeps, next_reply-Keeps}
use librabbitmq.Errors.{close, failed_status}
use librabbitmq.Errors.Keeps.{not_connected-Keeps, handle_amq_error-Keeps}
use librabbitmq.Synchronous.{
  release_held, bail, opened, unless_null, named, with_table, handled, synchronous,
}

-- After the kept references have been released.
abbrev pub released : World → World
released w = record w { py = xdecref_held w.py }

-- `P` holds until the references are released, and `R` from then on, whatever is raised, called or
-- read, and when the connection is closed.
pub record Passes (P R : World → Type 0) : Type 0 where
  pub before : IsStable P
  pub after : IsStable R
  pub closing : Keeps R close
  pub releasing : (w : World) → P w → R (released w)
  pub releasing_again : (w : World) → R w → R (released w)
  pub naming : (v : PyVal) → Keeps P (lift (maybe_unicode v))

-- Taking the bytes of an object, or crashing, changes nothing.
pub bytes-Keeps : (P : World → Type 0) (o : Object) → Keeps P (lift (string_as_amqbytes o))
unfolding string_as_amqbytes
bytes-Keeps P o = record { at = λ w h. bytes_of o.value w h }
  where
    bytes_of :
        (v : PyVal) (w : World)
        → P w
        → Ensures (λ b w'. P w') (lift (string_as_amqbytes (record { value = v; ref = o.ref })) w)
    bytes_of null w h = tt
    bytes_of none_ w h = tt
    bytes_of (bool b) w h = tt
    bytes_of (int z) w h = tt
    bytes_of (float d) w h = tt
    bytes_of (str cs) w h = tt
    bytes_of (bytes bs) w h = h
    bytes_of (dict d) w h = tt
    bytes_of (list d) w h = tt
    bytes_of (tuple d) w h = tt
    bytes_of other w h = tt

-- A text is taken over, or an exception is set.
pub string-Keeps :
    (P : World → Type 0) → IsStable P → (b : AmqpBytes) → Keeps P (lift (string_from_amqbytes b))
unfolding string_from_amqbytes
string-Keeps P stable b = record { at = λ w h. decoded (utf8_decode b.bytes) w h }
  where
    decoded :
        (o : Option (List ℕ)) (w : World)
        → P w
        → Ensures
            (λ v w'. P w')
            (with_py w (elim o [
              | none ↦ ok null (set_err unicode_decode_error w.py)
              | some cs ↦ ok (str cs) w.py
            ]))
    decoded none w h = stable.raising _ w h
    decoded (some cs) w h = h

-- A condition on arguments that parse.
abbrev pub OnArgs : {A : Type 0} → (A → Type 0) → Option A → Type 0
OnArgs D none = Top
OnArgs D (some a) = D a

-- What follows the two tests with which a method begins, and the encoding of a name, where `bail` is
-- taken care of.
module _ {B : Type 0} (P : World → Type 0) (Q : Option B → World → Type 0)
    (bails : Ends P Q bail) where
  pub opened-Ends :
      {A : Type 0} (args : Option A) (work : A → Cmd World (Option B))
      → IsStable P
      → OnArgs (λ a. Ends P Q (work a)) args
      → Ends P Q (opened args work)
  unfolding opened
  opened-Ends none work stable ends =
      Ends-bind _ _ _ (not_connected-Keeps P stable)
        (λ refused. Ends-if _ refused _ _ bails (Ends-then _ _ _ (raise-Keeps P stable _) bails))
  opened-Ends (some a) work stable ends =
      Ends-bind _ _ _ (not_connected-Keeps P stable) (λ refused. Ends-if _ refused _ _ bails ends)

  unless_null-Ends :
      (v : PyVal) (m : Cmd World (Option B)) → Ends P Q m → Ends P Q (unless_null v m)
  unless_null-Ends null m e = bails
  unless_null-Ends none_ m e = e
  unless_null-Ends (bool b) m e = e
  unless_null-Ends (int z) m e = e
  unless_null-Ends (float d) m e = e
  unless_null-Ends (str cs) m e = e
  unless_null-Ends (bytes bs) m e = e
  unless_null-Ends (dict d) m e = e
  unless_null-Ends (list d) m e = e
  unless_null-Ends (tuple d) m e = e
  unless_null-Ends other m e = e

  pub named-Ends :
      (v : PyVal) (next : Object → Cmd World (Option B))
      → Keeps P (lift (maybe_unicode v))
      → ((o : Object) → Ends P Q (next o))
      → Ends P Q (named v next)
  unfolding named
  named-Ends v next naming ends =
      Ends-bind _ _ _ naming (λ o. unless_null-Ends o.value (next o) (ends o))

-- The method ends with `R`.
module _ (P R : World → Type 0) (p : Passes P R) where
  abbrev pub Closes : {B : Type 0} → Cmd World (Option B) → Type 0
  Closes m = Ends P (λ r w. R w) m

  pub bail-Closes : {B : Type 0} → Closes (bail {A = B})
  bail-Closes = record { at = λ w h. p.releasing w h }

  pub bail-Keeps : {B : Type 0} → Keeps R (bail {A = B})
  bail-Keeps = record { at = λ w h. p.releasing_again w h }

  pub opened-Closes :
      {A B : Type 0} (args : Option A) (work : A → Cmd World (Option B))
      → OnArgs (λ a. Closes (work a)) args
      → Closes (opened args work)
  opened-Closes args work closes = opened-Ends P _ bail-Closes args work p.before closes

  pub named-Closes :
      {B : Type 0} (v : PyVal) (next : Object → Cmd World (Option B))
      → ((o : Object) → Closes (next o))
      → Closes (named v next)
  named-Closes v next closes = named-Ends P _ bail-Closes v next (p.naming v) closes

  checked-Closes :
      {B : Type 0} (m : Cmd World (Option B))
      → Closes m
      → Closes (λ w. elim (err_occurred w.py) [ true ↦ bail w | false ↦ m w ])
  checked-Closes m c = record { at = λ w h. checked (err_occurred w.py) w h }
    where
      checked :
          (b : Bool) (w : World)
          → P w
          → Ensures (λ r w'. R w') (elim b [ true ↦ bail w | false ↦ m w ])
      checked true w h = p.releasing w h
      checked false w h = c.at w h

  pub with_table-Closes :
      {B : Type 0} (ch : ℕ) (arguments : PyVal) (next : Entries → Cmd World (Option B))
      → Keeps P (lift (dict_to_table arguments))
      → ((t : Entries) → Closes (next t))
      → Closes (with_table ch arguments next)
  unfolding with_table
  with_table-Closes ch arguments next tabling closes =
      Ends-bind _ _ _ (call-Keeps P p.before _)
        (λ u. Ends-bind _ _ _ tabling (λ t. checked-Closes (next t) (closes t)))

  pub handled-Keeps :
      {B : Type 0} (ch : ℕ) (r : RpcReply) (context : String)
      (next : RpcReply → Cmd World (Option B))
      → ((r' : RpcReply) → Keeps R (next r'))
      → Keeps R (handled ch r context next)
  unfolding handled
  handled-Keeps ch r context next kn =
      Keeps-bind _ _ (handle_amq_error-Keeps R p.after p.closing ch r context)
        (λ z. Keeps-if (failed_status z) _ _ bail-Keeps (kn r))

  pub synchronous-Closes :
      {B : Type 0} (b : Bool) (ch : ℕ) (c : Call) (context : String)
      (next : RpcReply → Cmd World (Option B))
      → ((r : RpcReply) → Keeps R (next r))
      → Closes (synchronous b ch c context next)
  unfolding synchronous
  synchronous-Closes b ch c context next kn = Ends-bind _ _ _ (call-Keeps P p.before _) (λ u.
      Ends-bind _ _ _ (call-Keeps P p.before _) (λ u'.
        Ends-bind _ _ _ (next_reply-Keeps P p.before) (λ reply.
          Ends-bind _ _ _ (Keeps-if b _ _ (call-Keeps P p.before _) (Keeps-pure tt)) (λ u''.
            Ends-seq_then R _ release_held (handled ch reply context next)
              (record { at = λ w h. p.releasing w h })
              (Ends-Keeps _ (handled-Keeps ch reply context next kn))))))
