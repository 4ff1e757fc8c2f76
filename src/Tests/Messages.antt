-- ===== src/Tests/Messages.antt =====
-- Bodies of concrete messages.
use librabbitmq.Base.{◌≡◌, refl, [], ◌∷◌, ◌++◌, arith}
use librabbitmq.Base.Cmd.{crash, Returns}
use librabbitmq.Py.{nil}
use librabbitmq.World.{World, failed}
use librabbitmq.Receive.Opening.{go, Head}
use librabbitmq.Receive.Fragments.{copied, receive_body}
use librabbitmq.Receive.Assembly.{Reached, body_frames}
use librabbitmq.Receive.Bodies.{
  arriving, receive_body-assembled, receive_body_overrun, receive_body_truncated,
}
use librabbitmq.Tests.{open_world, open_world-IsAlive}

-- A body of five bytes is announced on channel 1.
abbrev five : Head
five = record { channel = 1; propdict = nil; body_target = 5 }

-- It comes as three bytes and two.
abbrev three_and_two : World
three_and_two = open_world [] (arriving 1 ((1 ∷ 2 ∷ 3 ∷ []) ∷ []) (65 ∷ 66 ∷ []) []) []

abbrev three_and_three : World
three_and_three = open_world [] (arriving 1 ((1 ∷ 2 ∷ 3 ∷ []) ∷ []) (65 ∷ 66 ∷ 67 ∷ []) []) []

abbrev three_only : World
three_only = open_world [] (body_frames 1 ((1 ∷ 2 ∷ 3 ∷ []) ∷ []) ++ (failed 0 ∷ [])) []

receive_body-assembled_example :
    Returns
      (λ r v. (r ≡ go (copied (1 ∷ 2 ∷ 3 ∷ 65 ∷ 66 ∷ []))) × Reached three_and_two [] v)
      (receive_body five three_and_two)
receive_body-assembled_example =
    receive_body-assembled five ((1 ∷ 2 ∷ 3 ∷ []) ∷ []) (65 ∷ 66 ∷ []) [] three_and_two
      (open_world-IsAlive _ _ _) refl (omega arith) refl

receive_body_overrun_example : receive_body five three_and_three ≡ crash
receive_body_overrun_example =
    receive_body_overrun five (1 ∷ 2 ∷ 3 ∷ []) [] (65 ∷ 66 ∷ 67 ∷ []) [] three_and_three
      (open_world-IsAlive _ _ _) refl (omega arith) (omega arith)

receive_body_truncated_example :
    Returns
      (λ r v. (r ≡ go (copied (1 ∷ 2 ∷ 3 ∷ []))) × Reached three_only [] v)
      (receive_body five three_only)
receive_body_truncated_example =
    receive_body_truncated five (1 ∷ 2 ∷ 3 ∷ []) [] 0 [] three_only (open_world-IsAlive _ _ _) refl
      (omega arith)
