-- ===== src/Proxy/Server/Crash.antt =====
-- One client, and all the others.
use waltap.Prelude.{◌≡◌, refl, true, false, [], ◌∷◌, append-nil, Bytes}
use waltap.Proxy.Wire.{read_startup_message, uint32, read_full}
use waltap.Proxy.Startup.{
  parse_startup_params, params_loop, key_round, value_round, slice_from, text_end,
}
use waltap.Proxy.Session.{Env}
use waltap.Proxy.Connection.{handle_client, is_ssl_request}
use waltap.Proxy.Server.{
  Network, accepting, process_down, Serving, accept_client, end_client, new_conn, session_panics,
}
use waltap.Proxy.Server.Steps.{Reaches, here, further, accepts, ends}

-- A startup message of ten bytes, whose only key has its NUL and nothing behind it.
abbrev pub keyed_startup : Bytes
keyed_startup = 0 ∷ 0 ∷ 0 ∷ 10 ∷ 0 ∷ 3 ∷ 0 ∷ 0 ∷ b'a' ∷ 0 ∷ []

keyed_startup-ends :
    (env : Env)
    → (session_panics (new_conn env keyed_startup) ≡ true)
      × ((new_conn env keyed_startup).remaining ≡ [])
unfolding session_panics new_conn handle_client read_startup_message uint32 read_full is_ssl_request
    parse_startup_params params_loop key_round value_round slice_from text_end
keyed_startup-ends env = (refl, refl)

module _ {L P : Type 0} (net : Network L P) where
  -- Wherever the loop accepts connections, whatever sessions are under way, one client that sends a
  -- startup message of ten bytes ends the whole process, before anything is asked of a pool.
  pub one_client_stops_all :
      (env : Env) (s : Serving L P)
      → s.phase ≡ accepting
      → s.listener_closed ≡ false
      → (t : Serving L P) × Reaches net s t
        × (t.phase ≡ process_down)
        × (t.queried ≡ s.queried)
        × (t.live ≡ s.live)
  unfolding accept_client end_client
  one_client_stops_all env s up listening =
      let c = new_conn env keyed_startup in
      let (dies, nothing) = keyed_startup-ends env in
      (
        end_client s.live c [] (accept_client env keyed_startup s),
        further (further here (accepts env keyed_startup up listening))
            (ends s.live c [] (λ e. cc) refl nothing),
        rw dies,
        refl,
        append-nil s.live,
      )
