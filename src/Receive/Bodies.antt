-- ===== src/Receive/Bodies.antt =====
-- What `PyRabbitMQ_recv` makes of the frames of a body.
use librabbitmq.Base.{
  ℕ, ◌+◌, ◌≤◌, ◌<◌, ◌≡◌, refl, ap, ◌∙◌, some, List, [], ◌∷◌, ◌++◌, length, arith, length-append,
}
use librabbitmq.Base.Int.{pos}
use librabbitmq.Base.Cmd.{ok, crash, Returns, Returns-bind, ◌>>=◌}
use librabbitmq.Py.Text.{utf8_encode}
use librabbitmq.Py.Text.Laws.{utf8_decode-utf8_encode}
use librabbitmq.Receive.{on_go, store}
use librabbitmq.World.{World, Wait, failed, Body, text_body, bytes_body}
use librabbitmq.World.Open.{IsAlive}
use librabbitmq.Receive.Opening.{go, Head}
use librabbitmq.Receive.Fragments.{
  Content, absent, whole, copied, receive_body, body_on, payload_of,
}
use librabbitmq.Receive.Assembly.{
  body_frames, joined, after_wait, after_frames, Reached, after_frames-Reached, fill_all, step_only,
  step_next, step_overrun, step_failed, body_on_done,
}

-- The content that the fragments `fs` and the last one make up.
abbrev pub assembled : List (List ℕ) → List ℕ → Content
assembled [] final = whole final
assembled (bs ∷ fs) final = copied (joined (bs ∷ fs) ++ final)

-- The frames of `fs`, the last one, and what comes behind.
abbrev pub arriving : ℕ → List (List ℕ) → List ℕ → List Wait → List Wait
arriving c fs final xs = body_frames c fs ++ (body_frames c (final ∷ []) ++ xs)

loop_assembled :
    (c t : ℕ) (fs : List (List ℕ)) (final : List ℕ) (xs : List Wait) (w : World)
    → IsAlive w
    → w.lib.frames ≡ arriving c fs final xs
    → length (joined fs) < t
    → length (joined fs) + length final ≡ t
    → Returns
        (λ r v. (r ≡ go (assembled fs final)) × Reached w xs v)
        (body_on (arriving c fs final xs) c t absent 0 w)
loop_assembled c t [] final xs w o e lt full =
    rw (step_only c t xs w o final e lt (omega arith))
      (refl, (record { alive_ = o.alive_ }, refl, refl, refl, refl))
loop_assembled c t (bs ∷ fs) final xs w o e lt full =
    rw
      (
        fill_all c t bs fs (body_frames c (final ∷ []) ++ xs) w o e lt,
        step_next c t xs v r.0 (joined (bs ∷ fs)) final r.1 lt (omega arith),
        body_on_done xs c t (copied (joined (bs ∷ fs) ++ final))
            (length (joined (bs ∷ fs) ++ final)) (after_wait c xs v) enough,
      )
      (refl, (record { alive_ = r.0.alive_ }, refl, r.2, r.3, r.4))
  where
    v : World
    v = after_frames c (bs ∷ fs) (body_frames c (final ∷ []) ++ xs) w

    r : Reached w (body_frames c (final ∷ []) ++ xs) v
    r = after_frames-Reached c (bs ∷ fs) (body_frames c (final ∷ []) ++ xs) w o e

    enough : t ≤ length (joined (bs ∷ fs) ++ final)
    enough = omega (arith, length-append (joined (bs ∷ fs)) final)

receive_body_on :
    (h : Head) (ys : List Wait) (w : World)
    → w.lib.frames ≡ ys
    → receive_body h w ≡ body_on ys h.channel h.body_target absent 0 w
unfolding receive_body
receive_body_on h ys w e = ap (λ zs. body_on zs h.channel h.body_target absent 0 w) e

-- Where the fragments of a body make up exactly the length that the header announced, the loop takes
-- them and no other frame, writes nothing behind the buffer, and the content is their concatenation;
-- the exception state and the object stay as they were. A single fragment is taken as it is.
pub receive_body-assembled :
    (h : Head) (fs : List (List ℕ)) (final : List ℕ) (xs : List Wait) (w : World)
    → IsAlive w
    → w.lib.frames ≡ arriving h.channel fs final xs
    → length (joined fs) < h.body_target
    → length (joined fs) + length final ≡ h.body_target
    → Returns (λ r v. (r ≡ go (assembled fs final)) × Reached w xs v) (receive_body h w)
receive_body-assembled h fs final xs w o e lt full =
    rw (receive_body_on h _ w e) (loop_assembled h.channel h.body_target fs final xs w o e lt full)

-- Where a later fragment is longer than what is left of the announced length, the loop writes behind
-- the end of the buffer.
pub receive_body_overrun :
    (h : Head) (bs : List ℕ) (fs : List (List ℕ)) (final : List ℕ) (xs : List Wait) (w : World)
    → IsAlive w
    → w.lib.frames ≡ arriving h.channel (bs ∷ fs) final xs
    → length (joined (bs ∷ fs)) < h.body_target
    → h.body_target < length (joined (bs ∷ fs)) + length final
    → receive_body h w ≡ crash
receive_body_overrun h bs fs final xs w o e lt over =
    receive_body_on h _ w e
    ∙ fill_all h.channel h.body_target bs fs (body_frames h.channel (final ∷ []) ++ xs) w o e lt
    ∙ step_overrun h.channel h.body_target xs _ r.0 (joined (bs ∷ fs)) final r.1 lt over
  where
    r :
        Reached w
          (body_frames h.channel (final ∷ []) ++ xs)
          (after_frames h.channel (bs ∷ fs) (body_frames h.channel (final ∷ []) ++ xs) w)
    r = after_frames-Reached h.channel (bs ∷ fs) (body_frames h.channel (final ∷ []) ++ xs) w o e

-- Where waiting for a frame fails after a first part of a body, the loop ends as if the body were
-- complete, with no exception set: the content is the part that came, in a buffer of the announced
-- length.
pub receive_body_truncated :
    (h : Head) (bs : List ℕ) (fs : List (List ℕ)) (n : ℕ) (xs : List Wait) (w : World)
    → IsAlive w
    → w.lib.frames ≡ body_frames h.channel (bs ∷ fs) ++ (failed n ∷ xs)
    → length (joined (bs ∷ fs)) < h.body_target
    → Returns (λ r v. (r ≡ go (copied (joined (bs ∷ fs)))) × Reached w xs v) (receive_body h w)
receive_body_truncated h bs fs n xs w o e lt =
    rw
      (
        receive_body_on h _ w e,
        fill_all h.channel h.body_target bs fs (failed n ∷ xs) w o e lt,
        step_failed h.channel h.body_target xs v r.0 n (length (joined (bs ∷ fs)))
            (copied (joined (bs ∷ fs))) r.1 lt,
      )
      (refl, (record { alive_ = r.0.alive_ }, refl, r.2, r.3, r.4))
  where
    v : World
    v = after_frames h.channel (bs ∷ fs) (failed n ∷ xs) w

    r : Reached w (failed n ∷ xs) v
    r = after_frames-Reached h.channel (bs ∷ fs) (failed n ∷ xs) w o e

-- The payload that `basic_get` stores for these fragments.
abbrev pub stored_body : List (List ℕ) → List ℕ → List ℕ → ℕ → Body
stored_body [] final cs size = text_body cs
stored_body (bs ∷ fs) final cs size = bytes_body (joined (bs ∷ fs) ++ final) size

payload_assembled :
    (fs : List (List ℕ)) (final cs : List ℕ) (size : ℕ) (v : World)
    → utf8_encode cs ≡ some final
    → payload_of size (assembled fs final) v ≡ ok (some (stored_body fs final cs size)) v
unfolding payload_of
payload_assembled [] final cs size v text =
    rw (payload_of, utf8_decode-utf8_encode cs final text) refl
payload_assembled (bs ∷ fs) final cs size v text = refl

-- What a `basic_get` stores depends on how the broker cut the body: a body that comes in one frame
-- with the encoding of a text is stored as that text, and one that comes in several frames as the
-- bytes of all of them, also where the last frame is the encoding of a text.
pub stored_lem :
    (h : Head) (fs : List (List ℕ)) (final cs : List ℕ) (xs : List Wait) (w : World)
    → IsAlive w
    → w.lib.frames ≡ arriving h.channel fs final xs
    → length (joined fs) < h.body_target
    → length (joined fs) + length final ≡ h.body_target
    → utf8_encode cs ≡ some final
    → Returns
        (λ r v.
          (r ≡ (
            pos 0,
            some (record {
              properties = h.propdict;
              body = stored_body fs final cs h.body_target;
              channel = h.channel;
            }),
          ))
          × Reached w xs v)
        ((receive_body h >>= on_go (store h)) w)
unfolding on_go store
stored_lem h fs final cs xs w o e lt full text =
    Returns-bind (λ r v. (r ≡ go (assembled fs final)) × Reached w xs v) _ (receive_body h w)
      (on_go (store h)) (receive_body-assembled h fs final xs w o e lt full)
      (λ r v p. rw (p.0, payload_assembled fs final cs h.body_target v text) (refl, p.1))
