-- ===== src/Errors/Keeps.antt =====
-- What the error handlers keep: every predicate on the world that raising, calling, reading the script
-- and closing the connection keep.
use Prim.Native.String.{String}
use librabbitmq.Base.{◌≡◌, refl, ℕ, zero, suc, Bool, true, false, List, [], ◌∷◌}
use librabbitmq.Base.Int.{ℤ, pos, negsuc}
use librabbitmq.Base.Cmd.{ok, Cmd, ◌>>◌, Ensures}
use librabbitmq.Base.Keeps.{Keeps, Keeps-pure, Keeps-bind, Keeps-then, keeps_rules}
use librabbitmq.Py.{PyErr, err_occurred}
use librabbitmq.World.{
  World, Connection, Pointer, null, alive, dangling, connection_close_, destroy_connection,
  RpcReply, normal, missing, library_exception, server_exception, basic_deliver, channel_close,
  connection_close, other_method,
}
use librabbitmq.World.OnSelf.{OnSelf}
use librabbitmq.World.Calls.{set_self, raise, call}
use librabbitmq.World.Keeps.{
  IsStable, raise-Keeps, call-Keeps, next_status-Keeps, next_reply-Keeps, waits-Keeps,
}
use librabbitmq.Errors.{
  not_connected, handle_error, raise_if_clear, handle_poll_error, handle_amq_status,
  set_err_unexpected_header, close, closed, conn_error, chan_error, handle_with, revive_send,
  revive_with, create_on, create_channel, revive_channel, handle_amq_error,
}

module _ (P : World → Type 0) (stable : IsStable P) where
  refused :
      (b : Bool) (w : World) → w.self.connected ≡ b → P w → Ensures (λ a w'. P w') (not_connected w)
  unfolding not_connected
  refused true w e h = rw (not_connected, e) h
  refused false w e h = rw (not_connected, e) (stable.raising _ w h)

  pub not_connected-Keeps : Keeps P not_connected
  not_connected-Keeps = record { at = λ w h. refused w.self.connected w refl h }

  pub handle_error-Keeps : (z : ℤ) (context : String) → Keeps P (handle_error z context)
  unfolding handle_error
  handle_error-Keeps (pos n) context = search keeps_rules
  handle_error-Keeps (negsuc n) context = search (keeps_rules, raise-Keeps P stable)

  pub raise_if_clear-Keeps : (e : PyErr) → Keeps P (raise_if_clear e)
  raise_if_clear-Keeps e = record { at = λ w h. clear (err_occurred w.py) w h }
    where
      clear :
          (b : Bool) (w : World)
          → P w
          → Ensures (λ a w'. P w') (elim b [ true ↦ ok tt w | false ↦ raise e w ])
      clear true w h = h
      clear false w h = stable.raising e w h

  pub handle_poll_error-Keeps : (z : ℤ) → Keeps P (handle_poll_error z)
  unfolding handle_poll_error
  handle_poll_error-Keeps (negsuc n) = search (keeps_rules, raise_if_clear-Keeps)
  handle_poll_error-Keeps (pos zero) = search (keeps_rules, raise_if_clear-Keeps)
  handle_poll_error-Keeps (pos (suc n)) = search keeps_rules

  pub handle_amq_status-Keeps : (z : ℤ) (context : String) → Keeps P (handle_amq_status z context)
  unfolding handle_amq_status
  handle_amq_status-Keeps (pos zero) context = search keeps_rules
  handle_amq_status-Keeps (pos (suc n)) context = search (keeps_rules, raise-Keeps P stable)
  handle_amq_status-Keeps (negsuc n) context = search (keeps_rules, raise-Keeps P stable)

  pub set_err_unexpected_header-Keeps : (n : ℕ) → Keeps P (set_err_unexpected_header n)
  unfolding set_err_unexpected_header
  set_err_unexpected_header-Keeps n = raise-Keeps P stable _

  module _ (closing : Keeps P close) where
    conn_error-Keeps : (e : PyErr) → Keeps P (conn_error e)
    unfolding conn_error
    conn_error-Keeps e =
        Keeps-then _ _ (Keeps-then _ _ (raise-Keeps P stable e) closing) (Keeps-pure _)

    chan_error-Keeps :
        (f : ℕ → Cmd World Bool) (ch : ℕ) (e : PyErr)
        → ((c : ℕ) → Keeps P (f c))
        → Keeps P (chan_error f ch e)
    unfolding chan_error
    chan_error-Keeps f ch e kf = search (keeps_rules, raise-Keeps P stable, kf)

    handle_with-Keeps :
        (f : ℕ → Cmd World Bool) (ch : ℕ) (r : RpcReply) (context : String)
        → ((c : ℕ) → Keeps P (f c))
        → Keeps P (handle_with f ch r context)
    unfolding handle_with
    handle_with-Keeps f ch (normal d) context kf = search keeps_rules
    handle_with-Keeps f ch missing context kf = conn_error-Keeps _
    handle_with-Keeps f ch (library_exception z) context kf = conn_error-Keeps _
    handle_with-Keeps f ch (server_exception (connection_close c t)) context kf = conn_error-Keeps _
    handle_with-Keeps f ch (server_exception (channel_close c t)) context kf =
        chan_error-Keeps f ch _ kf
    handle_with-Keeps f ch (server_exception (other_method i)) context kf = conn_error-Keeps _
    handle_with-Keeps f ch (server_exception (basic_deliver d)) context kf = conn_error-Keeps _

    revive_send-Keeps :
        (f : ℕ → Cmd World Bool) (ch : ℕ) (z : ℤ)
        → ((c : ℕ) → Keeps P (f c))
        → Keeps P (revive_send f ch z)
    unfolding revive_send
    revive_send-Keeps f ch (negsuc n) kf =
        Keeps-then _ _ (Keeps-then _ _ (raise-Keeps P stable _) closing) (Keeps-pure _)
    revive_send-Keeps f ch (pos n) kf = kf ch

    revive_with-Keeps :
        (f : ℕ → Cmd World Bool) (ch : ℕ) → ((c : ℕ) → Keeps P (f c)) → Keeps P (revive_with f ch)
    unfolding revive_with
    revive_with-Keeps f ch kf =
        Keeps-bind _ _ (call-Keeps P stable _)
          (λ u. Keeps-bind _ _ (next_status-Keeps P stable) (λ z. revive_send-Keeps f ch z kf))

    create_on-Keeps : (rs : List RpcReply) (ch : ℕ) → Keeps P (create_on rs ch)
    unfolding create_on
    create_on-Keeps [] ch = search (keeps_rules, call-Keeps P stable, waits-Keeps P stable)
    create_on-Keeps (r ∷ rs) ch = Keeps-bind _ _ (call-Keeps P stable _) (λ u.
        Keeps-bind _ _ (call-Keeps P stable _) (λ u'.
          Keeps-bind _ _ (next_reply-Keeps P stable) (λ reply.
            Keeps-bind _ _
              (handle_with-Keeps (revive_with (create_on rs)) 0 reply "Couldn't create channel"
                (λ c. revive_with-Keeps (create_on rs) c (create_on-Keeps rs)))
              (λ z. Keeps-pure _))))

    pub create_channel-Keeps : (ch : ℕ) → Keeps P (create_channel ch)
    unfolding create_channel
    create_channel-Keeps ch = record { at = λ w h. (create_on-Keeps w.lib.replies ch).at w h }

    pub revive_channel-Keeps : (ch : ℕ) → Keeps P (revive_channel ch)
    unfolding revive_channel
    revive_channel-Keeps ch = revive_with-Keeps create_channel ch create_channel-Keeps

    pub handle_amq_error-Keeps :
        (ch : ℕ) (r : RpcReply) (context : String) → Keeps P (handle_amq_error ch r context)
    unfolding handle_amq_error
    handle_amq_error-Keeps ch r context =
        handle_with-Keeps revive_channel ch r context revive_channel-Keeps

module _ (Q : Connection → Type 0)
    (shut : (c : Connection) → c.connected ≡ true → Q c → Q (closed c)) where
  destroying :
      (p : Pointer) (w : World)
      → w.self.conn ≡ p
      → w.self.connected ≡ true
      → Q w.self
      → Ensures
          (λ a w'. Q w'.self)
          ((call connection_close_ >> call destroy_connection >> set_self closed) w)
  destroying null w e c h = rw e tt
  destroying dangling w e c h = rw e tt
  destroying alive w e c h = rw e (shut w.self c h)

  closing_on :
      (b : Bool) (w : World)
      → w.self.connected ≡ b
      → Q w.self
      → Ensures (λ a w'. Q w'.self) (close w)
  unfolding close
  closing_on true w e h = rw (close, e) (destroying w.self.conn w refl e h)
  closing_on false w e h = rw (close, e) h

  -- Closing keeps what it keeps of an object that is connected.
  pub close-Keeps : Keeps (OnSelf Q) close
  close-Keeps = record { at = λ w h. closing_on w.self.connected w refl h }
