-- ===== src/Tests/Getting.antt =====
-- A message that `_basic_get` fetches from a concrete queue.
use librabbitmq.Base.{◌≡◌, refl, true, some, [], ◌∷◌, arith}
use librabbitmq.Base.Cmd.{Returns}
use librabbitmq.Py.{str}
use librabbitmq.Py.Text.{utf8_encode, utf8_char}
use librabbitmq.World.{World, normal, get_ok, got, header}
use librabbitmq.Receive.Bodies.{arriving}
use librabbitmq.Receive.Get.{GetArgs, basic_get_method}
use librabbitmq.Receive.Get.Fetched.{Fetched, got_of, basic_get_method-Fetched}
use librabbitmq.Tests.{open_world}
use librabbitmq.Tests.Deliveries.{delivery, plain, plain-HasAsciiTexts}

-- From the queue "q" on channel 3.
abbrev asking : GetArgs
asking = record { channel = 3; queue = str (113 ∷ []); no_ack = 1 }

-- Five bytes in two frames, the second of which is "AB"; two messages are left.
abbrev waiting : World
waiting = record w { lib = record lib { buffered = true ∷ [] } }
  where
    w : World
    w =
        open_world (normal (get_ok delivery 2) ∷ [])
          (got (record { channel = 3; payload = header plain 5 })
            ∷ arriving 3 ((1 ∷ 2 ∷ 3 ∷ []) ∷ []) (65 ∷ 66 ∷ []) [])
          []

    open w use {lib}

ab_encoded : utf8_encode (65 ∷ 66 ∷ []) ≡ some (65 ∷ 66 ∷ [])
unfolding utf8_encode utf8_char
ab_encoded = refl

basic_get_method-Fetched_example :
    Returns
      (Fetched
        (got_of 3 delivery 2 plain 5 ((1 ∷ 2 ∷ 3 ∷ []) ∷ []) (65 ∷ 66 ∷ []) (65 ∷ 66 ∷ []))
        []
        waiting)
      (basic_get_method (some asking) waiting)
basic_get_method-Fetched_example =
    basic_get_method-Fetched asking 3 delivery 2 plain 5 ((1 ∷ 2 ∷ 3 ∷ []) ∷ []) (65 ∷ 66 ∷ [])
      (65 ∷ 66 ∷ []) [] [] [] waiting (omega arith, tt) (record { alive_ = refl }) refl refl refl
      refl refl (omega arith, tt) (omega arith, tt) plain-HasAsciiTexts refl (omega arith) refl
      ab_encoded
