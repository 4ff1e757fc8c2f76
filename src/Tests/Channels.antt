-- ===== src/Tests/Channels.antt =====
-- The error handlers and the methods of a channel on concrete runs.
use librabbitmq.Base.{List, ◌≡◌, refl, none, some, [], ◌∷◌}
use librabbitmq.Base.Int.{pos, negsuc}
use librabbitmq.Base.Cmd.{ok, NoCrash, Returns}
use librabbitmq.World.{World, RpcReply, normal, server_exception, channel_close, other_ok}
use librabbitmq.Errors.{close, handle_amq_error, create_channel}
use librabbitmq.Errors.Close.{Closed, close-IsSound}
use librabbitmq.Errors.Revive.{Handled, handle_amq_error_ok}
use librabbitmq.Errors.Refusals.{Refusal, refusals, accepted, Ended, create_channel_refused}
use librabbitmq.Lifecycle.{connect, channel_open_method, channel_close_method}
use librabbitmq.Lifecycle.Laws.{Answers, channel_methods_ok}
use librabbitmq.Lifecycle.Connect.{unopened, connect-unopened}
use librabbitmq.Tests.{open_world, closed_world, open_world-IsAlive, open_world-IsSound}

-- The server closed the channel of a request.
abbrev not_found : RpcReply
not_found = server_exception (channel_close 404 (113 ∷ []))

-- The close-ok can be sent, and the channel is opened again.
abbrev reopened : World
reopened = open_world (normal (other_ok 0) ∷ []) [] (pos 0 ∷ [])

-- The channel cannot be created at first.
abbrev refused : World
refused = open_world (not_found ∷ normal (other_ok 0) ∷ []) [] (pos 0 ∷ [])

handle_amq_error_ok_example :
    NoCrash (Handled reopened) (handle_amq_error 1 not_found "get" reopened)
handle_amq_error_ok_example =
    handle_amq_error_ok 1 not_found "get" reopened (open_world-IsAlive _ _ _)

close-IsSound_example : Returns (λ _ w'. Closed reopened w') (close reopened)
close-IsSound_example = close-IsSound reopened (open_world-IsSound _ _ _)

channel_methods_ok_example :
    NoCrash (Answers refused.self) (channel_open_method (some 2) refused)
    × NoCrash (Answers refused.self) (channel_close_method (some 2) refused)
channel_methods_ok_example = channel_methods_ok (some 2) refused (open_world-IsSound _ _ _)

abbrev idle : World
idle = closed_world (negsuc 8 ∷ [])

connect-unopened_example : connect idle ≡ ok none (unopened (104 ∷ []) (negsuc 8) [] idle)
connect-unopened_example = connect-unopened (104 ∷ []) 8 [] idle refl refl refl refl

-- Two refusals with codes and texts of their own, then the channel is opened.
abbrev two_refusals : List Refusal
two_refusals =
    record { code = 504; reason = [] } ∷ record { code = 406; reason = 112 ∷ 113 ∷ [] } ∷ []

abbrev refused_twice : World
refused_twice =
    open_world (refusals two_refusals (normal (other_ok 0) ∷ [])) [] (accepted two_refusals)

create_channel_refused_example :
    Returns (Ended two_refusals 5 [] [] refused_twice) (create_channel 5 refused_twice)
create_channel_refused_example =
    create_channel_refused two_refusals 5 (other_ok 0) [] [] refused_twice
      (open_world-IsAlive _ _ _) refl refl
