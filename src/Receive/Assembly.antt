-- ===== src/Receive/Assembly.antt =====
-- The body loop of `PyRabbitMQ_recv` on the frames of one message: fragments that fit, fragments that
-- overrun the buffer, and a wait that fails half way.
use librabbitmq.Base.{
  ℕ, ◌+◌, ◌≤◌, ◌<◌, ◌≡◌, refl, ◌∙◌, true, false, List, [], ◌∷◌, ◌++◌, length, ltb, leb, arith,
  length-append, append_assoc, append-nil,
}
use librabbitmq.Base.Cmd.{ok, crash}
use librabbitmq.World.{World, Wait, failed, got, body, wait_frame_on_channel}
use librabbitmq.World.Open.{IsAlive}
use librabbitmq.Receive.Opening.{go}
use librabbitmq.Receive.Fragments.{Content, absent, whole, copied, body_frame, body_on, fragment}

-- The frames of the fragments of a body on a channel.
abbrev pub body_frames : ℕ → List (List ℕ) → List Wait
body_frames c [] = []
body_frames c (bs ∷ fs) = got (record { channel = c; payload = body bs }) ∷ body_frames c fs

abbrev pub joined : List (List ℕ) → List ℕ
joined [] = []
joined (bs ∷ fs) = bs ++ joined fs

-- After one wait that took a frame, with the frames that are still to come.
abbrev pub after_wait : ℕ → List Wait → World → World
after_wait c xs w = record w {
  lib = record lib { frames = xs };
  trace = wait_frame_on_channel c ∷ trace;
}
  where
    open w use {lib, trace}

-- After the fragments have been taken.
abbrev pub after_frames : ℕ → List (List ℕ) → List Wait → World → World
after_frames c [] xs w = w
after_frames c (bs ∷ fs) xs w = after_frames c fs xs (after_wait c (body_frames c fs ++ xs) w)

pub round :
    (x : Wait) (xs : List Wait) (c t : ℕ) (content : Content) (r : ℕ) (w : World)
    → IsAlive w
    → w.lib.frames ≡ x ∷ xs
    → r < t
    → body_on (x ∷ xs) c t content r w
      ≡ body_frame (body_on xs c t) t r content x (after_wait c xs w)
unfolding body_on
round x xs c t content r w o e lt = rw (body_on, less, o.alive_, e) refl
  where
    less : ltb r t ≡ true
    less = ground arith

pub body_on_done :
    (xs : List Wait) (c t : ℕ) (content : Content) (r : ℕ) (w : World)
    → t ≤ r
    → body_on xs c t content r w ≡ ok (go content) w
unfolding body_on
body_on_done [] c t content r w le = ground arith
body_on_done (x ∷ xs) c t content r w le = ground arith

module _ (c t : ℕ) (xs : List Wait) (w : World) (o : IsAlive w) where
  -- The first fragment of several opens the buffer.
  step_first :
      (bs : List ℕ)
      → w.lib.frames ≡ got (record { channel = c; payload = body bs }) ∷ xs
      → length bs < t
      → body_on (got (record { channel = c; payload = body bs }) ∷ xs) c t absent 0 w
        ≡ body_on xs c t (copied bs) (length bs) (after_wait c xs w)
  unfolding body_frame fragment
  step_first bs e lt = round _ xs c t absent 0 w o e some_left ∙ rw (less, fits, from_zero) refl
    where
      from_zero : 0 + length bs ≡ length bs
      from_zero = omega arith

      some_left : 0 < t
      some_left = omega arith

      less : ltb (0 + length bs) t ≡ true
      less = ground arith

      fits : leb (0 + length bs) t ≡ true
      fits = ground arith

  -- The only fragment is taken as it is.
  pub step_only :
      (bs : List ℕ)
      → w.lib.frames ≡ got (record { channel = c; payload = body bs }) ∷ xs
      → 0 < t
      → t ≤ length bs
      → body_on (got (record { channel = c; payload = body bs }) ∷ xs) c t absent 0 w
        ≡ ok (go (whole bs)) (after_wait c xs w)
  unfolding body_frame fragment
  step_only bs e lt le = round _ xs c t absent 0 w o e lt ∙ rw enough refl
    where
      enough : ltb (0 + length bs) t ≡ false
      enough = ground arith

  -- A later fragment that fits is copied behind what there is.
  pub step_next :
      (filled bs : List ℕ)
      → w.lib.frames ≡ got (record { channel = c; payload = body bs }) ∷ xs
      → length filled < t
      → length filled + length bs ≤ t
      → body_on
          (got (record { channel = c; payload = body bs }) ∷ xs)
          c
          t
          (copied filled)
          (length filled)
          w
        ≡ body_on xs c t (copied (filled ++ bs)) (length (filled ++ bs)) (after_wait c xs w)
  unfolding body_frame fragment
  step_next filled bs e lt le =
      round _ xs c t (copied filled) (length filled) w o e lt
      ∙ rw (fits, length-append filled bs) refl
    where
      fits : leb (length filled + length bs) t ≡ true
      fits = ground arith

  -- One that does not fit is written behind the buffer.
  pub step_overrun :
      (filled bs : List ℕ)
      → w.lib.frames ≡ got (record { channel = c; payload = body bs }) ∷ xs
      → length filled < t
      → t < length filled + length bs
      → body_on
          (got (record { channel = c; payload = body bs }) ∷ xs)
          c
          t
          (copied filled)
          (length filled)
          w
        ≡ crash
  unfolding body_frame fragment
  step_overrun filled bs e lt over =
      round _ xs c t (copied filled) (length filled) w o e lt ∙ rw too_long refl
    where
      too_long : leb (length filled + length bs) t ≡ false
      too_long = ground arith

  -- A failed wait leaves the loop with what there is.
  pub step_failed :
      (n r : ℕ) (content : Content)
      → w.lib.frames ≡ failed n ∷ xs
      → r < t
      → body_on (failed n ∷ xs) c t content r w ≡ ok (go content) (after_wait c xs w)
  unfolding body_frame
  step_failed n r content e lt = round _ xs c t content r w o e lt

-- The pointer, the frames, and what stays, after one wait and after several.
abbrev pub Reached : World → List Wait → World → Type 0
Reached w xs v =
    IsAlive v × (v.lib.frames ≡ xs) × (v.py ≡ w.py) × (v.self ≡ w.self) × (v.caller ≡ w.caller)

pub after_frames-Reached :
    (c : ℕ) (fs : List (List ℕ)) (xs : List Wait) (w : World)
    → IsAlive w
    → w.lib.frames ≡ body_frames c fs ++ xs
    → Reached w xs (after_frames c fs xs w)
after_frames-Reached c [] xs w o e = (o, e, refl, refl, refl)
after_frames-Reached c (bs ∷ fs) xs w o e =
    after_frames-Reached c fs xs (after_wait c (body_frames c fs ++ xs) w)
      (record { alive_ = o.alive_ }) refl

-- The later fragments, while the buffer is not full.
fill :
    (c t : ℕ) (fs : List (List ℕ)) (xs : List Wait) (filled : List ℕ) (w : World)
    → IsAlive w
    → w.lib.frames ≡ body_frames c fs ++ xs
    → length filled + length (joined fs) < t
    → body_on (body_frames c fs ++ xs) c t (copied filled) (length filled) w
      ≡ body_on xs c t
          (copied (filled ++ joined fs))
          (length (filled ++ joined fs))
          (after_frames c fs xs w)
fill c t [] xs filled w o e lt = rw (append-nil filled) refl
fill c t (bs ∷ fs) xs filled w o e lt =
    step_next c t (body_frames c fs ++ xs) w o filled bs e below fits
    ∙ fill c t fs xs (filled ++ bs) (after_wait c (body_frames c fs ++ xs) w)
        (record { alive_ = o.alive_ }) refl more
    ∙ rw (append_assoc filled bs (joined fs)) refl
  where
    lengths : length (joined (bs ∷ fs)) ≡ length bs + length (joined fs)
    lengths = length-append bs (joined fs)

    below : length filled < t
    below = omega arith

    fits : length filled + length bs ≤ t
    fits = omega (arith, lengths)

    more : length (filled ++ bs) + length (joined fs) < t
    more = omega (arith, lengths, length-append filled bs)

-- All fragments of a body but the last: the buffer holds them, one behind the other.
pub fill_all :
    (c t : ℕ) (bs : List ℕ) (fs : List (List ℕ)) (xs : List Wait) (w : World)
    → IsAlive w
    → w.lib.frames ≡ body_frames c (bs ∷ fs) ++ xs
    → length (joined (bs ∷ fs)) < t
    → body_on (body_frames c (bs ∷ fs) ++ xs) c t absent 0 w
      ≡ body_on xs c t
          (copied (joined (bs ∷ fs)))
          (length (joined (bs ∷ fs)))
          (after_frames c (bs ∷ fs) xs w)
fill_all c t bs fs xs w o e lt =
    step_first c t (body_frames c fs ++ xs) w o bs e below
    ∙ fill c t fs xs bs (after_wait c (body_frames c fs ++ xs) w) (record { alive_ = o.alive_ })
        refl more
  where
    lengths : length (joined (bs ∷ fs)) ≡ length bs + length (joined fs)
    lengths = length-append bs (joined fs)

    below : length bs < t
    below = omega (arith, lengths)

    more : length bs + length (joined fs) < t
    more = omega (arith, lengths)
