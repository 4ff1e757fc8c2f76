-- ===== src/Receive/Fragments.antt =====
-- The body of a message in `PyRabbitMQ_recv` of connection.c. A body is shorter than `2 ^ 63`, so
-- that its length is a `Py_ssize_t`.
use librabbitmq.Base.{
  ℕ, ◌+◌, true, false, Option, none, some, List, [], ◌∷◌, ◌++◌, length, ltb, leb, ◌==◌,
  if◌then◌else◌,
}
use librabbitmq.Base.Int.{pos}
use librabbitmq.Base.Cmd.{Cmd, ok, pure, fail, ◌>>=◌, ◌>>◌}
use librabbitmq.Py.{PyItems, channel_error, text, unicode_decode_error}
use librabbitmq.Py.Text.{utf8_decode}
use librabbitmq.World.{
  World, method, body, Wait, failed, got, wait_frame_on_channel, Body, text_body, bytes_body,
  view_body,
}
use librabbitmq.World.Calls.{raise, call, next_frame, waits}
use librabbitmq.Receive.Opening.{Exit, go, finally, Head, altframe, set_err_received_frame}

-- The content as the body loop has it: nothing yet (`i` is 0), the only fragment, or what has been
-- copied into the buffer of `body_target` bytes.
pub data Content : Type 0 where
  absent : Content
  whole copied : List ℕ → Content

-- `for (j = 0; j < len; *buf++ = *bufp++, j++)`: a write behind the buffer is a crash.
abbrev pub copy :
    ℕ → List ℕ → List ℕ → (List ℕ → Cmd World (Exit Content)) → Cmd World (Exit Content)
copy body_target filled bs next =
    if leb (length filled + length bs) body_target then next (filled ++ bs) else fail

-- A fragment, over the next round. The first one is all, or a buffer is allocated; nothing follows
-- an only fragment.
unfoldable pub fragment :
    (Content → ℕ → Cmd World (Exit Content)) → ℕ → ℕ → Content → List ℕ → Cmd World (Exit Content)
fragment again body_target received absent bs =
    if ltb (received + length bs) body_target
    then copy body_target [] bs (λ filled. again (copied filled) (received + length bs))
    else pure (go (whole bs))
fragment again body_target received (copied filled) bs =
    copy body_target filled bs (λ filled'. again (copied filled') (received + length bs))
fragment again body_target received (whole cs) bs = fail

-- One round of the loop. A failed wait leaves the loop, and no more than the loop.
unfoldable pub body_frame :
    (Content → ℕ → Cmd World (Exit Content)) → ℕ → ℕ → Content → Wait → Cmd World (Exit Content)
unfolding fragment set_err_received_frame
body_frame again body_target received content (failed n) = pure (go content)
body_frame again body_target received content (got f) = elim f.payload [
  | method m ↦ altframe f.channel m
  | body bs ↦ fragment again body_target received content bs
  | _ ↦
      (raise (channel_error (text "Expected body, got unexpected frame")) >> pure (finally (pos 0)))
]

unfoldable pub body_on : List Wait → ℕ → ℕ → Content → ℕ → Cmd World (Exit Content)
unfolding body_frame
body_on [] channel body_target content received = elim (ltb received body_target) [
  | false ↦ pure (go content)
  | true ↦ (call (wait_frame_on_channel channel) >> waits)
]
body_on (x ∷ xs) channel body_target content received = elim (ltb received body_target) [
  | false ↦ pure (go content)
  | true ↦ (do
    call (wait_frame_on_channel channel)
    y ← next_frame
    body_frame (body_on xs channel body_target) body_target received content y)
]

unfoldable pub receive_body : Head → Cmd World (Exit Content)
unfolding body_on
receive_body h w = body_on w.lib.frames h.channel h.body_target absent 0 w

-- The keys that `basic_get` finds in `p` afterwards.
pub record Message : Type 0 where
  pub properties : PyItems
  pub body : Body
  pub channel : ℕ

-- The payload of `p`: a text where the body came in one frame, and else a bytes object.
unfoldable pub payload_of : ℕ → Content → Cmd World (Option Body)
payload_of body_target absent w = ok (if body_target == 0 then some (bytes_body [] 0) else none) w
payload_of body_target (copied filled) w = ok (some (bytes_body filled body_target)) w
payload_of body_target (whole bs) w = elim (utf8_decode bs) [
  | none ↦ (raise unicode_decode_error >> pure none) w
  | some cs ↦ ok (some (text_body cs)) w
]

-- The view that a callback gets; none without a body.
unfoldable pub view_of : ℕ → Content → Option Body
view_of body_target absent = none
view_of body_target (whole bs) = some (view_body bs (length bs))
view_of body_target (copied filled) = some (view_body filled body_target)
