-- ===== src/Client/Connection.antt =====
-- Connecting (include/nats_client/Client.hpp): `connect`, `jet_stream`, `get_max_payload`.
pub mod Setup
use natsclient_cpp.Base.{ℤ, pos, some, codes, ◌!=◌, if◌then◌else◌}
use natsclient_cpp.Nats.{
  Ptr, null, StatusCall, OptionCall, Callback, HandleCall, NumberCall, JsOptions, Library, M, pure,
  ◌>>=◌, writing, reading, found,
}
use natsclient_cpp.Error.{nats_error, Expected, unexpected, success}
use natsclient_cpp.Client.{NatsClient, Outcome, fail, attempt}

module _ {S : Type 0} (nats : Library S) where
  -- `natsConnection_Connect(&conn, opts.ptr)`: the member `conn` is written by the library.
  open_connection : NatsClient → Outcome nats (Unit {0})
  open_connection self = do
    (s, conn) ← writing (nats.open_handle (HandleCall.connect self.opts.ptr) self.conn)
    let self' : NatsClient = record self { s = some s; conn = conn }
    if s != nats.nats_ok
        then fail nats self' s (pure (codes "Connect failed. Check NATS server is running."))
        else pure (success, self')

  -- A read of the options' status is undefined until a setter has set it.
  unfoldable pub connect : NatsClient → Outcome nats (Unit {0})
  unfolding open_connection
  connect self = do
    status ← found self.opts.s
    if status != nats.nats_ok
        then pure (unexpected (nats_error nats status (codes "NATS options has an error.")), self)
        else attempt nats self
            (StatusCall.option self.opts.ptr
              (OptionCall.set_callback Callback.disconnected_callback null))
            (pure (codes "Error setting disconnected callback."))
            λ self.
              attempt nats self
                (StatusCall.option self.opts.ptr
                  (OptionCall.set_callback Callback.reconnected_callback null))
                (pure (codes "Error setting reconnected callback."))
                λ self.
                  attempt nats self
                    (StatusCall.option self.opts.ptr
                      (OptionCall.set_callback Callback.closed_callback null))
                    (pure (codes "Error setting closed callback."))
                    λ self.
                      attempt nats self
                        (StatusCall.option self.opts.ptr
                          (OptionCall.set_callback Callback.error_handler_callback null))
                        (pure (codes "Error setting error handler callback."))
                        λ self. open_connection self

  -- `jsOpts` and `js` are written by the library.
  unfoldable pub jet_stream : NatsClient → Outcome nats (Unit {0})
  jet_stream self = do
    (s, js_opts) ← writing (nats.js_options_init self.js_opts)
    let self' : NatsClient = record self { s = some s; js_opts = some js_opts }
    if s != nats.nats_ok
        then fail nats self' s (pure (codes "Failed to initialize JetStream options."))
        else (do
          let js_opts' : JsOptions = record js_opts { publish_async_max_pending = pos 256 }
          (t, js) ← writing (nats.open_handle (HandleCall.jet_stream self.conn js_opts') self.js)
          let self'' : NatsClient = record self { s = some t; js_opts = some js_opts'; js = js }
          if t != nats.nats_ok
              then fail nats self'' t (pure (codes "Failed to create JetStream context."))
              else pure (success, self''))

  unfoldable pub get_max_payload : NatsClient → M S ℤ
  get_max_payload self = reading (nats.number (NumberCall.max_payload self.conn))
