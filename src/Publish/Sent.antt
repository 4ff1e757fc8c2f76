-- ===== src/Publish/Sent.antt =====
-- `_basic_publish` where the message is sent.
use librabbitmq.Base.{
  ℕ, ◌≡◌, ◌∙◌, refl, ap, sym, subst, true, Option, none, some, List, ◌∷◌, Top, arith,
}
use librabbitmq.Base.Int.{ℤ, pos}
use librabbitmq.Base.Cmd.{Cmd, ◌>>=◌, ◌>>◌, Returns, Returns-bind, Returns-mono}
use librabbitmq.Py.{Py, dict, take_ref, release, xdecref}
use librabbitmq.Py.Held.Laws.{xdecref_held-err}
use librabbitmq.Amqp.{string_as_amqbytes}
use librabbitmq.Amqp.Encodes.{IsKey, KeyEncodes}
use librabbitmq.Amqp.Encodes.Stores.{key_object}
use librabbitmq.World.{
  as_channel, World, Call, alive, BasicProperties, basic_publish, channel_pool, release_on_channel,
}
use librabbitmq.World.Calls.{lift, call}
use librabbitmq.World.Open.{IsAlive}
use librabbitmq.Errors.{handle_error}
use librabbitmq.Message.Dict.{HasAsciiTexts}
use librabbitmq.Synchronous.{bail}
use librabbitmq.Synchronous.Sent.{Holds, with_py_returns, call-Holds, opened_work, named_sent}
use librabbitmq.Publish.{
  PublishArgs, published, publish_send, publish_properties, publish_work, basic_publish_method,
}
use librabbitmq.Publish.Properties.{dict_to_basic_properties}
use librabbitmq.Publish.RoundTrip.{items, HasSmallNumbers, SaysTheSame, ReadBack, read_back}

-- The calls behind those that were made before.
abbrev pub publishing :
    PublishArgs → List ℕ → List ℕ → Option ℕ → Option ℕ → BasicProperties → List Call → List Call
publishing a es rs i j q calls =
    release_on_channel a.channel
    ∷ basic_publish a.channel (record { bytes = es; owner = i }) (record { bytes = rs; owner = j })
        a.mandatory a.immediate q a.body
    ∷ channel_pool (as_channel a.channel)
    ∷ calls

-- None is returned, no exception is set, the object is as it was, one status was taken, and the message was
-- sent with the names and the body of the arguments and these properties, and nothing else.
abbrev pub Published : PublishArgs → BasicProperties → List ℤ → World → Option Top → World → Type 0
Published a props zs w r w' =
    (r ≡ some tt)
    × (w'.py.err ≡ none)
    × (w'.self ≡ w.self)
    × (w'.lib.statuses ≡ zs)
    × ((es rs : List ℕ) × (i j : Option ℕ) × (q : BasicProperties) × KeyEncodes a.exchange es
        × KeyEncodes a.routing_key rs
        × SaysTheSame props q
        × (w'.trace ≡ publishing a es rs i j q w.trace))

abbrev at : World → List ℤ → World
at w zs = record w { self = record self { conn = alive }; lib = record lib { statuses = zs } }
  where
    open w use {self, lib}

-- The message goes out.
abbrev Gone :
    PublishArgs
    → List ℕ
    → List ℕ
    → Option ℕ
    → Option ℕ
    → BasicProperties
    → List ℤ
    → World
    → Option Top
    → World
    → Type 0
Gone a es rs i j q zs w r w' =
    (r ≡ some tt)
    × (w'.py.err ≡ none)
    × (w'.self ≡ w.self)
    × (w'.lib.statuses ≡ zs)
    × (w'.trace
        ≡ release_on_channel a.channel
          ∷ basic_publish a.channel (record { bytes = es; owner = i })
              (record { bytes = rs; owner = j }) a.mandatory a.immediate q a.body
          ∷ w.trace)

message_at :
    (a : PublishArgs) (es rs : List ℕ) (i j : Option ℕ) (q : BasicProperties) (n : ℕ) (zs : List ℤ)
    (w : World)
    → w.py.err ≡ none
    → Returns
        (Gone a es rs i j q zs (at w (pos n ∷ zs)))
        (publish_send a (key_object es i) (key_object rs j) q (at w (pos n ∷ zs)))
unfolding publish_send string_as_amqbytes handle_error published
message_at a es rs i j q n zs w calm = (refl, xdecref_held-err w.py ∙ calm, refl, refl, refl)

gone :
    (a : PublishArgs) (es rs : List ℕ) (i j : Option ℕ) (q : BasicProperties) (n : ℕ) (zs : List ℤ)
    (w : World)
    → IsAlive w
    → w.py.err ≡ none
    → w.lib.statuses ≡ pos n ∷ zs
    → Returns (Gone a es rs i j q zs w) (publish_send a (key_object es i) (key_object rs j) q w)
gone a es rs i j q n zs w o calm e =
    subst
      (λ v.
        Returns (Gone a es rs i j q zs v) (publish_send a (key_object es i) (key_object rs j) q v))
      (sym same) (message_at a es rs i j q n zs w calm)
  where
    same : w ≡ at w (pos n ∷ zs)
    same = λ t. record w {
      self = record self { conn = o.alive_ t };
      lib = record lib { statuses = e t };
    }
      where
        open w use {self, lib}

release-err : (i : ℕ) (s : Py) → (release i s).err ≡ s.err
release-err i s = ground arith

module _ (a : PublishArgs) (props : BasicProperties) (n : ℕ) (zs : List ℤ) (w : World)
    (say : a.propdict ≡ dict (items props)) (texts : HasAsciiTexts props)
    (small : HasSmallNumbers props) (answer : w.lib.statuses ≡ pos n ∷ zs) where
  -- From the properties on.
  sent_as :
      (es rs : List ℕ) (i j : Option ℕ) (m : ℕ) (q : BasicProperties) (v : World)
      → KeyEncodes a.exchange es
      → KeyEncodes a.routing_key rs
      → SaysTheSame props q
      → Holds w (channel_pool (as_channel a.channel) ∷ w.trace) v
      → Returns
          (Published a props zs w)
          ((do lift (xdecref m); publish_send a (key_object es i) (key_object rs j) q) v)
  sent_as es rs i j m q v ke kr same h =
      Returns-mono (Gone a es rs i j q zs v') (Published a props zs w) _
        (gone a es rs i j q n zs v' (record { alive_ = h.0.alive_ }) (release-err m v.py ∙ h.1)
          (ap (λ l. l.statuses) h.3 ∙ answer))
        (λ r w' g. (
          g.0,
          g.1,
          g.2 ∙ h.2,
          g.3,
          (
            es,
            rs,
            i,
            j,
            q,
            ke,
            kr,
            same,
            g.4
                ∙ ap
                    (λ y.
                      release_on_channel a.channel
                      ∷ basic_publish a.channel (record { bytes = es; owner = i })
                          (record { bytes = rs; owner = j }) a.mandatory a.immediate q a.body
                      ∷ y)
                    h.4,
          ),
        ))
    where
      v' : World
      v' = record v { py = release m v.py }

  -- The properties are read, the extra reference is given back, and the message is sent.
  properties_sent :
      (es rs : List ℕ) (i j : Option ℕ) (v : World)
      → KeyEncodes a.exchange es
      → KeyEncodes a.routing_key rs
      → Holds w w.trace v
      → Returns
          (Published a props zs w)
          (publish_properties a (key_object es i) (key_object rs j) v)
  unfolding publish_properties
  properties_sent es rs i j v ke kr h =
      Returns-bind (λ u v2. Holds w (channel_pool (as_channel a.channel) ∷ w.trace) v2) _
        (call (channel_pool (as_channel a.channel)) v1) _
        (call-Holds w w.trace (channel_pool (as_channel a.channel)) v1
          (record { alive_ = h.0.alive_ }, h.1, h.2, h.3, h.4))
        (λ u v2 h2.
          subst
            (λ d.
              Returns (Published a props zs w) ((lift (dict_to_basic_properties d) >>= go_on) v2))
            (sym say)
            (with_py_returns (ReadBack props v2.py) _
              (dict_to_basic_properties (dict (items props)) v2.py) v2 go_on
              (read_back props v2.py texts small) (λ r s q. read r s v2 q h2)))
    where
      v1 : World
      v1 = record v { py = take_ref v.py }

      go_on : Option BasicProperties → Cmd World (Option Top)
      go_on o = elim o [
        | none ↦ bail
        | some p ↦ (do
          lift (xdecref v.py.fresh)
          publish_send a (key_object es i) (key_object rs j) p)
      ]

      read :
          (r : Option BasicProperties) (s : Py) (v2 : World)
          → ReadBack props v2.py r s
          → Holds w (channel_pool (as_channel a.channel) ∷ w.trace) v2
          → Returns (Published a props zs w) (go_on r (record v2 { py = s }))
      read none s v2 q h2 = absurd q
      read (some q) s v2 r h2 =
          sent_as es rs i j v.py.fresh q (record v2 { py = s }) ke kr r.0
            (record { alive_ = h2.0.alive_ }, r.1 ∙ h2.1, h2.2, h2.3, h2.4)

-- On an open connection with no exception set, where the names can be encoded, the property dict is
-- that of a message with properties `props` (as it was received: texts in ASCII, a timestamp below
-- `2 ^ 63`; headers left out) and the library takes the message, `_basic_publish` returns None without an exception: the message is sent
-- with the names as they encode, the properties of `props`, and the body, and no other call is made
-- but for the pool and to release buffers.
pub basic_publish_method_sent :
    (a : PublishArgs) (props : BasicProperties) (n : ℕ) (zs : List ℤ) (w : World)
    → IsKey a.exchange
    → IsKey a.routing_key
    → a.propdict ≡ dict (items props)
    → HasAsciiTexts props
    → HasSmallNumbers props
    → IsAlive w
    → w.self.connected ≡ true
    → w.py.err ≡ none
    → w.lib.statuses ≡ pos n ∷ zs
    → Returns (Published a props zs w) (basic_publish_method (some a) w)
unfolding basic_publish_method publish_work
basic_publish_method_sent a props n zs w ke kr say texts small o c calm e =
    subst (Returns (Published a props zs w)) (sym (opened_work publish_work a w c)) (
      named_sent w w.trace (Published a props zs w) a.exchange _ w ke
        (record { alive_ = o.alive_ }, calm, refl, refl, refl)
        (λ es i w1 k1 h1.
          named_sent w w.trace (Published a props zs w) a.routing_key _ w1 kr h1 (λ rs j w2 k2 h2.
            properties_sent a props n zs w say texts small e es rs i j w2 k1 k2 h2)))
