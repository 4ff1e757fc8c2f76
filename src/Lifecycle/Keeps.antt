-- ===== src/Lifecycle/Keeps.antt =====
-- What the channel methods keep: every predicate that raising, calling, reading the script and closing
-- the connection keep.
use librabbitmq.Base.{ℕ, Bool, Option, none, some}
use librabbitmq.Base.Cmd.{Cmd}
use librabbitmq.Base.Keeps.{Keeps, Keeps-pure, Keeps-bind, Keeps-then, Keeps-if}
use librabbitmq.World.{World}
use librabbitmq.World.Keeps.{IsStable, raise-Keeps, call-Keeps, next_reply-Keeps}
use librabbitmq.Errors.{close}
use librabbitmq.Errors.Keeps.{not_connected-Keeps, handle_amq_error-Keeps, create_channel-Keeps}
use librabbitmq.Lifecycle.{
  with_args, guarded, destroy_channel, channel_open_method, channel_close_method,
}

module _ (P : World → Type 0) (stable : IsStable P) where
  with_args-Keeps :
      {A : Type 0} (args : Option A) (work : A → Cmd World Bool)
      → ((a : A) → Keeps P (work a))
      → Keeps P (with_args args work)
  unfolding with_args
  with_args-Keeps none work kw = Keeps-then _ _ (raise-Keeps P stable _) (Keeps-pure _)
  with_args-Keeps (some a) work kw =
      Keeps-bind _ _ (kw a) (λ failed. Keeps-if failed _ _ (Keeps-pure _) (Keeps-pure _))

  pub guarded-Keeps :
      {A : Type 0} (args : Option A) (work : A → Cmd World Bool)
      → ((a : A) → Keeps P (work a))
      → Keeps P (guarded args work)
  unfolding guarded
  guarded-Keeps args work kw =
      Keeps-bind _ _ (not_connected-Keeps P stable)
        (λ refused. Keeps-if refused _ _ (Keeps-pure _) (with_args-Keeps args work kw))

  module _ (closing : Keeps P close) where
    pub channel_open_method-Keeps : (args : Option ℕ) → Keeps P (channel_open_method args)
    unfolding channel_open_method
    channel_open_method-Keeps args = guarded-Keeps args _ (create_channel-Keeps P stable closing)

    destroy_channel-Keeps : (ch : ℕ) → Keeps P (destroy_channel ch)
    unfolding destroy_channel
    destroy_channel-Keeps ch = Keeps-bind _ _ (call-Keeps P stable _) (λ u.
        Keeps-bind _ _ (next_reply-Keeps P stable) (λ reply.
          Keeps-bind _ _ (call-Keeps P stable _)
            (λ u'. handle_amq_error-Keeps P stable closing ch reply "Couldn't close channel")))

    pub channel_close_method-Keeps : (args : Option ℕ) → Keeps P (channel_close_method args)
    unfolding channel_close_method
    channel_close_method-Keeps args =
        guarded-Keeps args _ (λ ch. Keeps-bind _ _ (destroy_channel-Keeps ch) (λ z. Keeps-pure _))
