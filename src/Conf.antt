-- ===== src/Conf.antt =====
-- utils/conf/router.go: the configuration that the tunnels read. config/config.go: the global proxy.
use anyproxy.Base.{
  ℕ, Bool, Bytes, codes, List, [], ◌∷◌, none, some, if◌then◌else◌, is_empty, split, atoi, to_u16,
  Map,
}

-- `PortMap`
pub record PortMap : Type 0 where
  pub from : ℕ
  pub to : ℕ

-- `Host`
pub record Host : Type 0 where
  pub name : Bytes
  pub match_kind : Bytes
  pub target : Bytes
  pub dns : Bytes
  pub ip : Bytes
  pub ports : List PortMap
  pub proxy : Bytes
  pub allow_ip : List Bytes

-- `conf.Host{}`
abbrev pub no_host : Host
no_host = record {
  name = [];
  match_kind = [];
  target = [];
  dns = [];
  ip = [];
  ports = [];
  proxy = [];
  allow_ip = [];
}

-- `Default`
pub record Default : Type 0 where
  pub match_kind : Bytes
  pub target : Bytes
  pub dns : Bytes
  pub proxy : Bytes
  pub tcp_target : Bytes

-- `TcpCopy`
pub record TcpCopy : Type 0 where
  pub enable : Bool
  pub ip : Bytes
  pub port : ℕ

-- `FirstLine`
pub record FirstLine : Type 0 where
  pub host : Bytes
  pub custom : Map Bytes Bytes

-- `Subscribe`
pub record Subscribe : Type 0 where
  pub key : Bytes
  pub val : Bytes

-- `Websocket`
pub record Websocket : Type 0 where
  pub listen : Bytes
  pub connect : Bytes
  pub host : Bytes
  pub user : Bytes
  pub pass : Bytes
  pub email : Bytes
  pub subscribe : List Subscribe

-- `Router`, without the listening address, the log directory and the watcher flag
pub record Router : Type 0 where
  pub token : Bytes
  pub tcp_copy : TcpCopy
  pub default : Default
  pub hosts : List Host
  pub allow_ip : List Bytes
  pub first_line : FirstLine
  pub websocket : Websocket

-- `ProxyScheme`, `ProxyServer` and `ProxyPort`
pub record ProxyServer : Type 0 where
  pub scheme : Bytes
  pub server : Bytes
  pub port : ℕ

-- The port check of `SetProxyServer`, on the parts around `:`
with_port : ProxyServer → List Bytes → ProxyServer
with_port p (server ∷ port ∷ []) =
    let n = atoi port in
    elim n.error [ none ↦ record p { server = server; port = to_u16 n.value } | some e ↦ p ]
with_port p _ = p

-- The protocol check, on the parts around `://`
with_scheme : ProxyServer → Bytes → List Bytes → ProxyServer
unfolding with_port
with_scheme p spec (scheme ∷ rest ∷ []) =
    with_port (record p { scheme = scheme }) (split (codes ":") rest)
with_scheme p spec _ = with_port p (split (codes ":") spec)

-- `SetProxyServer`
unfoldable pub set_proxy_server : ProxyServer → Bytes → ProxyServer
unfolding with_scheme
set_proxy_server p spec = if is_empty spec then p else with_scheme p spec (split (codes "://") spec)

-- `IfEmptyThen`
unfoldable pub if_empty_then : Bytes → Bytes → Bytes → Bytes
if_empty_then s s2 s3 = if is_empty s then (if is_empty s2 then s3 else s2) else s
