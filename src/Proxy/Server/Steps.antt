-- ===== src/Proxy/Server/Steps.antt =====
-- The interleavings of the loop, the sessions, and the calls from outside, as a step relation.
use waltap.Prelude.{◌≡◌, ◌≢◌, true, false, List, [], ◌∷◌, ◌++◌, Bytes}
use waltap.Proxy.Session.{Backend, Env}
use waltap.Proxy.Server.{
  Network, accepting, process_down, Conn, Serving, accept_client, accept_failed, give_statement,
  end_client, listener_done, close,
}

module _ {L P : Type 0} (net : Network L P) where
  pub data Step (s : Serving L P) : Serving L P → Type 0 where
    cancels : Step s (record s { cancelled = true })
    listener_closes : s.cancelled ≡ true → Step s (listener_done s)
    closes : Step s (close net s).0
    accepts :
        (env : Env) (input : Bytes)
        → s.phase ≡ accepting
        → s.listener_closed ≡ false
        → Step s (accept_client env input s)
    accept_fails : s.phase ≡ accepting → Step s (accept_failed s)
    gives :
        (before : List Conn) (c : Conn) (after : List Conn) (q : Backend × Bytes)
        (rest : List (Backend × Bytes))
        → s.phase ≢ process_down
        → s.live ≡ before ++ c ∷ after
        → c.remaining ≡ q ∷ rest
        → Step s (give_statement before c after q rest s)
    ends :
        (before : List Conn) (c : Conn) (after : List Conn)
        → s.phase ≢ process_down
        → s.live ≡ before ++ c ∷ after
        → c.remaining ≡ []
        → Step s (end_client before c after s)

  -- What `Run` comes to from its loop on.
  pub data Reaches (s : Serving L P) : Serving L P → Type 0 where
    here : Reaches s s
    further : {t u : Serving L P} → Reaches s t → Step t u → Reaches s u
