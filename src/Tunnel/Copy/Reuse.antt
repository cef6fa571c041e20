-- ===== src/Tunnel/Copy/Reuse.antt =====
-- proto/tunnel.go: the connection of a client is used again with the bytes that were not sent.
use anyproxy.Base.{true, false, Bytes, [], ◌∷◌, ◌++◌, none, some, ◌≡◌, ◌⊎◌}
use anyproxy.TcpReader.Stream.{stream}
use anyproxy.Tunnel.Copy.{request, server, state_idle, Copy, Transfer}
use anyproxy.Tunnel.Copy.Account.{Accounts}

-- What holds of a transfer between `asked`, all the client sends, and `given`, all the server sends.
pub record IsFaithful (asked given : Bytes) (t : Transfer) : Type 0 where
  pub up : Accounts request asked t.pipe t.up
  pub down : Accounts server given t.pipe t.down
  -- an idle connection keeps the bytes that were read behind those sent
  pub idle :
      t.pipe.cur_state ≡ state_idle
      → (t.up.returned ≡ some none) × (asked ≡ t.up.sent ++ (t.pipe.buf ++ stream t.up.src))
  -- and is used again with these bytes, at most once, and only when the server has ended
  pub reused :
      (t.pipe.reused ≡ []) ⊎ ((t.pipe.reused ≡ t.pipe.buf ∷ []) × (t.pipe.cur_state ≡ state_idle))
  pub once : t.down.returned ≡ none → (t.pipe.reused ≡ []) × (t.pipe.client_closed ≡ false)
  pub one_end : t.pipe.client_closed ≡ true → t.pipe.reused ≡ []
