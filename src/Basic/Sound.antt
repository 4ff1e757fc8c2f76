-- ===== src/Basic/Sound.antt =====
-- The connection object and the exception state after the methods of Basic.
use Prim.Native.String.{String}
use librabbitmq.Base.{ℕ, ◌≡◌, ◌∙◌, refl, ap, Bool, true, false, Option}
use librabbitmq.Base.Int.{ℤ, pos, negsuc}
use librabbitmq.Base.Cmd.{pure, and_then, NoCrash, NoCrash-bind}
use librabbitmq.Py.{Py, PyErr, err_occurred, connection_error, status}
use librabbitmq.World.{World, Connection, Call, get_rpc_reply, release_on_channel}
use librabbitmq.World.Calls.{raised, call, next_status, next_reply}
use librabbitmq.World.Open.{
  IsSound, IsAlive, IsAlive-IsSound, Stays, call-Stays, next_reply-Stays, next_status-Stays,
}
use librabbitmq.Errors.{handle_error, handle_amq_error, revive_channel}
use librabbitmq.Errors.Revive.{
  Reports, Handled, Handled-Reports, handle_amq_error_ok, revive_channel_ok,
}
use librabbitmq.Lifecycle.Laws.{Answers, guarded_ok}
use librabbitmq.Basic.{
  AckArgs, QosArgs, FlagArgs, send_or_revive, ack_work, basic_ack_method, reject_work,
  basic_reject_method, qos_work, basic_qos_method, request, flow_work, flow_method, recover_work,
  basic_recover_method,
}

-- Where nothing has changed, success is reported.
unchanged :
    (c : Connection) (s : Py) (w : World) → IsAlive w → w.py ≡ s → w.self ≡ c → Reports c s false w
unchanged c s w o p q =
    (IsAlive-IsSound w o, (λ e. (q, o)), (λ e. cc), (λ e. ap err_occurred p ∙ e))

-- What reviving leaves is a failure, since the exception of the failed send was set before.
revived_fails :
    (c : Connection) (s : Py) (e : PyErr) (w : World) (b : Bool) (v : World)
    → Reports w.self (raised e w).py b v
    → Reports c s true v
revived_fails c s e w b v h = (h.0, (λ x. cc), (λ x. h.3 refl), (λ x. h.3 refl))

-- After the send.
sent_ok :
    (c : Connection) (s : Py) (ch : ℕ) (context : String) (z : ℤ) (w : World)
    → IsAlive w
    → w.py ≡ s
    → w.self ≡ c
    → NoCrash (Reports c s) (
        and_then (handle_error z context w) (λ sent. elim sent [
          | true ↦ pure false
          | false ↦ (λ v. and_then (revive_channel ch v) (λ u. pure true))
        ]))
unfolding handle_error
sent_ok c s ch context (pos n) w o p q = unchanged c s w o p q
sent_ok c s ch context (negsuc n) w o p q =
    NoCrash-bind (Reports w.self (raised e w).py) (Reports c s) (revive_channel ch (raised e w)) _
      (revive_channel_ok ch (raised e w) (record { alive_ = o.alive_ }))
      (λ b v h. revived_fails c s e w b v h)
  where
    e : PyErr
    e = connection_error (status context (negsuc n))

send_or_revive_ok :
    (ch : ℕ) (c : Call) (context : String) (w : World)
    → IsAlive w
    → NoCrash (Reports w.self w.py) (send_or_revive ch c context w)
unfolding send_or_revive
send_or_revive_ok ch c context w o =
    NoCrash-bind (Stays w) (Reports w.self w.py) (call c w) _ (call-Stays c w o) (λ u w1 p.
      NoCrash-bind (Stays w1) (Reports w.self w.py) (next_status w1) _ (next_status-Stays w1 p.0)
        (λ z w2 q. sent_ok w.self w.py ch context z w2 q.0 (q.1 ∙ p.1) (q.2 ∙ p.2)))

request_ok :
    (ch : ℕ) (c : Call) (context : String) (w : World)
    → IsAlive w
    → NoCrash (Reports w.self w.py) (request ch c context w)
unfolding request
request_ok ch c context w o =
    NoCrash-bind (Stays w) (Reports w.self w.py) (call c w) _ (call-Stays c w o) (λ u w1 p.
      NoCrash-bind (Stays w1) (Reports w.self w.py) (call get_rpc_reply w1) _
        (call-Stays get_rpc_reply w1 p.0)
        (λ u' w2 q.
          NoCrash-bind (Stays w2) (Reports w.self w.py) (next_reply w2) _ (next_reply-Stays w2 q.0)
            (λ reply w3 r.
              NoCrash-bind (Stays w3) (Reports w.self w.py) (call (release_on_channel ch) w3) _
                (call-Stays (release_on_channel ch) w3 r.0)
                (λ u'' w4 t.
                  NoCrash-bind (Handled w4) (Reports w.self w.py)
                    (handle_amq_error ch reply context w4) _
                    (handle_amq_error_ok ch reply context w4 t.0)
                    (λ z w5 h.
                      Handled-Reports w.self w.py w4 z w5 t.0 (t.2 ∙ r.2 ∙ q.2 ∙ p.2)
                        (t.1 ∙ r.1 ∙ q.1 ∙ p.1) h)))))

qos_ok : (a : QosArgs) (w : World) → IsAlive w → NoCrash (Reports w.self w.py) (qos_work a w)
unfolding qos_work
qos_ok a w o =
    NoCrash-bind (Stays w) (Reports w.self w.py) (call _ w) _ (call-Stays _ w o) (λ u w1 p.
      NoCrash-bind (Stays w1) (Reports w.self w.py) (next_reply w1) _ (next_reply-Stays w1 p.0)
        (λ reply w2 q. unchanged w.self w.py w2 q.0 (q.1 ∙ p.1) (q.2 ∙ p.2)))

-- On a sound object the methods with numbers for arguments do not crash, whatever the arguments are
-- and whatever the broker answers: NULL comes with an exception, None with the object unchanged, and
-- the object stays sound.
pub basic_methods_ok :
    (ack reject : Option AckArgs) (qos : Option QosArgs) (flow recover : Option FlagArgs)
    (w : World)
    → IsSound w
    → NoCrash (Answers w.self) (basic_ack_method ack w)
      × NoCrash (Answers w.self) (basic_reject_method reject w)
      × NoCrash (Answers w.self) (basic_qos_method qos w)
      × NoCrash (Answers w.self) (flow_method flow w)
      × NoCrash (Answers w.self) (basic_recover_method recover w)
unfolding basic_ack_method basic_reject_method basic_qos_method flow_method basic_recover_method
    ack_work reject_work flow_work recover_work
basic_methods_ok ack reject qos flow recover w s = (
  guarded_ok ack ack_work w (λ a v o. send_or_revive_ok _ _ _ v o) s,
  guarded_ok reject reject_work w (λ a v o. send_or_revive_ok _ _ _ v o) s,
  guarded_ok qos qos_work w qos_ok s,
  guarded_ok flow flow_work w (λ a v o. request_ok _ _ _ v o) s,
  guarded_ok recover recover_work w (λ a v o. request_ok _ _ _ v o) s,
)
