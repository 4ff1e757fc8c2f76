-- ===== src/Basic/Keeps.antt =====
-- What the methods of Basic keep: every predicate that raising, calling, reading the script and
-- closing the connection keep.
use Prim.Native.String.{String}
use librabbitmq.Base.{ℕ, Bool, true, false, Option}
use librabbitmq.Base.Cmd.{pure, ◌>>◌}
use librabbitmq.Base.Keeps.{Keeps, Keeps-pure, Keeps-bind, Keeps-then}
use librabbitmq.World.{World, Call}
use librabbitmq.World.Keeps.{IsStable, call-Keeps, next_status-Keeps, next_reply-Keeps}
use librabbitmq.Errors.{close, revive_channel}
use librabbitmq.Errors.Keeps.{handle_error-Keeps, revive_channel-Keeps, handle_amq_error-Keeps}
use librabbitmq.Lifecycle.Keeps.{guarded-Keeps}
use librabbitmq.Basic.{
  AckArgs, QosArgs, FlagArgs, send_or_revive, ack_work, basic_ack_method, reject_work,
  basic_reject_method, qos_work, basic_qos_method, request, flow_work, flow_method, recover_work,
  basic_recover_method,
}

module _ (P : World → Type 0) (stable : IsStable P) (closing : Keeps P close) where
  revive_unless :
      (ch : ℕ) (sent : Bool)
      → Keeps P (elim sent [ true ↦ pure false | false ↦ revive_channel ch >> pure true ])
  revive_unless ch true = Keeps-pure _
  revive_unless ch false = Keeps-then _ _ (revive_channel-Keeps P stable closing ch) (Keeps-pure _)

  send_or_revive-Keeps :
      (ch : ℕ) (c : Call) (context : String) → Keeps P (send_or_revive ch c context)
  unfolding send_or_revive
  send_or_revive-Keeps ch c context = Keeps-bind _ _ (call-Keeps P stable c) (λ u.
      Keeps-bind _ _ (next_status-Keeps P stable) (λ z.
        Keeps-bind _ _ (handle_error-Keeps P stable z context) (λ sent. revive_unless ch sent)))

  request-Keeps : (ch : ℕ) (c : Call) (context : String) → Keeps P (request ch c context)
  unfolding request
  request-Keeps ch c context = Keeps-bind _ _ (call-Keeps P stable c) (λ u.
      Keeps-bind _ _ (call-Keeps P stable _) (λ u'.
        Keeps-bind _ _ (next_reply-Keeps P stable) (λ reply.
          Keeps-bind _ _ (call-Keeps P stable _) (λ u''.
            Keeps-bind _ _ (handle_amq_error-Keeps P stable closing ch reply context)
              (λ z. Keeps-pure _)))))

  qos_work-Keeps : (a : QosArgs) → Keeps P (qos_work a)
  unfolding qos_work
  qos_work-Keeps a =
      Keeps-bind _ _ (call-Keeps P stable _)
        (λ u. Keeps-bind _ _ (next_reply-Keeps P stable) (λ reply. Keeps-pure _))

  pub basic_ack_method-Keeps : (args : Option AckArgs) → Keeps P (basic_ack_method args)
  unfolding basic_ack_method ack_work
  basic_ack_method-Keeps args =
      guarded-Keeps P stable args ack_work (λ a. send_or_revive-Keeps a.channel _ "basic.ack")

  pub basic_reject_method-Keeps : (args : Option AckArgs) → Keeps P (basic_reject_method args)
  unfolding basic_reject_method reject_work
  basic_reject_method-Keeps args =
      guarded-Keeps P stable args reject_work (λ a. send_or_revive-Keeps a.channel _ "basic.reject")

  pub basic_qos_method-Keeps : (args : Option QosArgs) → Keeps P (basic_qos_method args)
  unfolding basic_qos_method
  basic_qos_method-Keeps args = guarded-Keeps P stable args qos_work qos_work-Keeps

  pub flow_method-Keeps : (args : Option FlagArgs) → Keeps P (flow_method args)
  unfolding flow_method flow_work
  flow_method-Keeps args =
      guarded-Keeps P stable args flow_work (λ a. request-Keeps a.channel _ "channel.flow")

  pub basic_recover_method-Keeps : (args : Option FlagArgs) → Keeps P (basic_recover_method args)
  unfolding basic_recover_method recover_work
  basic_recover_method-Keeps args =
      guarded-Keeps P stable args recover_work (λ a. request-Keeps a.channel _ "basic.recover")
