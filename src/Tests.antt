-- ===== src/Tests.antt =====
-- The theorems at concrete inputs: one program that dials for its clients, and the data it handles.
pub mod Wire
pub mod Text
pub mod Flow
pub mod Reuse
use anyproxy.Base.{
  ℕ, ◌+◌, ◌-◌, ◌*◌, ◌%◌, ◌≤◌, ◌<◌, ◌≡◌, ◌≢◌, refl, arith, true, false, not, Bytes, codes, List, [],
  ◌∷◌, ◌++◌, Option, none, some, inl, if◌then◌else◌, ltb, itoa, length, ok, lookup, bytes_key,
  bytes_eq, to_lower, pos, Lacks, min_i64, ap,
}
use mathlib.Core.List.{map}
use anyproxy.Conf.{Host, no_host, Router, ProxyServer, Subscribe}
use anyproxy.Cache.{
  DialState, state_fail, state_none, new_lookup_cache, lookup_host, store_host, slots,
}
use anyproxy.Cache.Answers.{lookup_host-store_host}
use anyproxy.Cache.Ring.{Inv, Call, looks_up, stores, run, run_bounded}
use anyproxy.Stats.{Counter, Manager, new_manager, i64_mod, register_counter, unregister_counter}
use anyproxy.Stats.Counting.{Delta, add_all, total, add_all-balance}
use anyproxy.Stats.Sharing.{
  swept, unregister_counter-lookup, register_counter-unregister_counter, register_counter-Inv,
}
use anyproxy.TcpReader.{new_reader}
use anyproxy.Request.{Requested}
use anyproxy.Response.{Situation, response}
use anyproxy.Response.Answers.{IsEarned, response-IsEarned}
use anyproxy.Crypto.{
  Outcome, done, failed, panics, ◌>>=◌, BlockCipher, IsCipher, block_size, padding, encrypt_aes,
  decrypt_aes,
}
use anyproxy.Crypto.RoundTrip.{decrypt_aes-encrypt_aes, padding_blocks}
use anyproxy.Tools.{get_port, get_remote_ip, fill_port}
use anyproxy.Tools.Address.{get_port-get_remote_ip, get_port-fill_port}
use anyproxy.Tunnel.{
  Env, Dial, direct, connect, World, find_host, is_allowed, get_string, find_host_in, ip_in_cidr,
}
use anyproxy.Tunnel.Handshake.{Proto, http, Dest, get_token, http_connect, handshake, target_of}
use anyproxy.Tunnel.Handshake.Policy.{IsDirectFrom, own_address, handshake-IsDirectFrom}
use anyproxy.Tunnel.Handshake.Success.{Connects, handshake-Connects}
use anyproxy.Tunnel.Handshake.Secret.{PrintsPlain, http_connect-decrypt_aes}
use anyproxy.Http.Request.{RequestEnv, decode_target}
use anyproxy.Http.Target.{http_connect-decode_target}

-- A cipher that changes nothing.
abbrev plain_cipher : BlockCipher
plain_cipher = record {
  valid_key = λ key. ltb 15 (length key);
  encrypt_blocks = λ key iv s. s;
  decrypt_blocks = λ key iv s. s;
}

plain_cipher-IsCipher : IsCipher plain_cipher
plain_cipher-IsCipher = record { same_length = λ key iv s. refl; decrypts = λ key iv s h. refl }

-- A network where all connections are made and every proxy agrees.
abbrev open_network : Env
open_network = record {
  now = 1000;
  reaches = λ n network addr. true;
  reply = λ n. some (codes "HTTP/1.1 200 OK");
  negotiates = λ n. true;
  lookup_ip = λ name. codes "10.0.0.1" ∷ [];
  parse_ip = λ s. s;
  ip_string = λ s. s;
  parse_cidr = λ s. none;
  cidr_contains = λ net ip. false;
  base64 = map (λ c. c + 64);
  print_format = λ s. s;
  cipher = plain_cipher;
}

abbrev example_host : Host
example_host = record no_host { name = codes "example.com"; target = codes "local" }

abbrev denied_host : Host
denied_host = record no_host { name = codes "denied.com"; target = codes "deny" }

abbrev router : Router
router = record {
  token = [];
  tcp_copy = record { enable = false; ip = []; port = 0 };
  default = record { match_kind = []; target = []; dns = []; proxy = []; tcp_target = [] };
  hosts = example_host ∷ denied_host ∷ [];
  allow_ip = [];
  first_line = record { host = []; custom = [] };
  websocket = record {
    listen = [];
    connect = [];
    host = [];
    user = [];
    pass = [];
    email = [];
    subscribe = [];
  };
}

abbrev proxy : ProxyServer
proxy = record { scheme = codes "tunnel"; server = codes "10.0.0.9"; port = 3000 }

abbrev fresh_world : World
fresh_world = record {
  cache = new_lookup_cache;
  inbound = new_manager;
  outbound = new_manager;
  dials = [];
}

abbrev dest_of : Bytes → Dest
dest_of name = record { inbound_ip = codes "192.168.0.2"; name = name; ip = []; port = 80 }

handshake-Connects_example :
    Connects open_network []
      (handshake open_network router proxy fresh_world http (dest_of (codes "other.com")))
handshake-Connects_example =
    handshake-Connects open_network router proxy fresh_world http (dest_of (codes "other.com"))

local_target : (find_host router (codes "example.com") []).target ≡ codes "local"
unfolding get_string find_host find_host_in bytes_eq
local_target = refl

local_without_proxy : (find_host router (codes "example.com") []).proxy ≡ []
unfolding find_host find_host_in get_string bytes_eq
local_without_proxy = refl

handshake-IsDirectFrom_example :
    IsDirectFrom []
      (own_address open_network router fresh_world
        (find_host router (codes "example.com") [])
        (dest_of (codes "example.com")))
      (handshake open_network router proxy fresh_world http (dest_of (codes "example.com")))
handshake-IsDirectFrom_example =
    handshake-IsDirectFrom open_network router proxy fresh_world http
      (dest_of (codes "example.com")) (inl local_target) local_without_proxy

token_valid : plain_cipher.valid_key (get_token router) ≡ true
unfolding get_token
token_valid = refl

token_length : length (get_token router) ≡ block_size
unfolding get_token
token_length = refl

abbrev peer : RequestEnv
peer = record {
  url = record { parse_request_uri = λ s. none; to_string = λ u. u.rest; port_of = λ u. [] };
  base64_decode = λ s. some (map (λ c. c - 64) s);
  cipher = plain_cipher;
}

plain_print : PrintsPlain open_network
plain_print = record { plain = λ s l. refl; encoded = λ x. above x }
  where
    above : (x : Bytes) → Lacks b'%' (map (λ c. c + 64) x)
    above [] = tt
    above (c ∷ x) = ((λ e. omega (arith, e)), above x)

shifted_back : (x : Bytes) → map (λ c. c - 64) (map (λ c. c + 64) x) ≡ x
shifted_back [] = refl
shifted_back (c ∷ x) = cc (shifted_back x, back c)
  where
    back : (c : ℕ) → c + 64 - 64 ≡ c
    back c = omega arith

http_connect-decode_target_example :
    (uri : Bytes) × ((http_connect open_network router fresh_world
        (codes "tcp")
        (codes "p:1")
        (codes "a:80")
        true).0.dials
      ≡ connect (codes "tcp") (codes "p:1") (codes "CONNECT " ++ (uri ++ codes " HTTP/1.1\r\n\r\n"))
        ∷ [])
    × (decode_target peer (get_token router) (codes "CONNECT") true uri ≡ ok (codes "a:80"))
http_connect-decode_target_example =
    http_connect-decode_target open_network peer router fresh_world (codes "tcp") (codes "p:1")
      (codes "a:80") plain_cipher-IsCipher plain_print refl token_valid token_length
      (λ x. ap some (shifted_back x))

lookup_host-store_host_example :
    (lookup_host
      (store_host new_lookup_cache (codes "a.com") (codes "1.2.3.4") state_fail 10 5)
      (codes "a.com")
      12).1
    ≡ (if ltb 12 (5 + 10) then (codes "1.2.3.4", state_fail) else ([], state_none))
lookup_host-store_host_example =
    lookup_host-store_host new_lookup_cache (codes "a.com") (codes "1.2.3.4") state_fail 10 5 12

abbrev some_calls : List Call
some_calls =
    stores (codes "a.com") (codes "1.2.3.4") state_fail 10 5 ∷ looks_up (codes "a.com") 20 ∷ []

run_bounded_example :
    Inv (run new_lookup_cache some_calls) × (length (run new_lookup_cache some_calls).ips ≤ slots)
run_bounded_example = run_bounded some_calls

decrypt_aes-encrypt_aes_example :
    (encrypt_aes plain_cipher (codes "hello") (codes "anyproxyproxyany") >>= λ x.
    decrypt_aes plain_cipher x (codes "anyproxyproxyany"))
    ≡ done (codes "hello")
decrypt_aes-encrypt_aes_example =
    decrypt_aes-encrypt_aes plain_cipher plain_cipher-IsCipher (codes "hello")
      (codes "anyproxyproxyany") refl refl

get_port-fill_port_example :
    (get_port (fill_port (itoa 3000)) ≡ itoa 3000)
    × (fill_port (fill_port (itoa 3000)) ≡ fill_port (itoa 3000))
get_port-fill_port_example = get_port-fill_port 3000 (omega arith)

abbrev some_counter : Counter
some_counter = record { name = codes "up"; active = 0; minute = 3; value = 10 }

abbrev some_deltas : List Delta
some_deltas =
    record { bytes = 5; minute = 3; now = 100 } ∷ record { bytes = 7; minute = 4; now = 160 } ∷ []

add_all-balance_example :
    let r = add_all some_counter some_deltas in
    (r.counter.value + r.at_least ≤ some_counter.value + total some_deltas)
    × (some_counter.value + total some_deltas ≤ r.counter.value + r.at_most)
add_all-balance_example = add_all-balance some_counter some_deltas (omega arith)

-- A client that asks for another host over HTTP.
abbrev situation : Situation
situation = record {
  env = open_network;
  conf = router;
  proxy = proxy;
  inbound_ip = codes "192.168.0.2";
  ws_enabled = false;
  clients = [];
  order = [];
  client_writes = true;
  original = none;
}

abbrev some_request : Requested
some_request =
    Requested.to_http (codes "GET")
      (record {
        url = record { scheme = codes "http"; host = codes "other.com"; rest = codes "/" };
        host = codes "other.com";
        request_uri = codes "/";
        first_line = codes "GET / HTTP/1.1";
        header = [];
      })
      [] (pos 0) (codes "other.com", 80)

response-IsEarned_example :
    IsEarned open_network [] (response situation fresh_world (new_reader []) some_request)
response-IsEarned_example = response-IsEarned situation fresh_world (new_reader []) some_request
