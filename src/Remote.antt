-- ===== src/Remote.antt =====
-- The choice of a light wallet server and of the connection to it (src/remote.rs).
pub mod Picked
mod Tests
use zcash_devtool_sqlx.Base.{
  ℕ, ◌==◌, ◌^◌, Bool, true, false, not, ◌&&◌, ◌||◌, Option, none, some, List, [], ◌∷◌, ◌++◌, Result,
  ok, err, ◌>>=◌, if◌then◌else◌, Text, codes, same, strip_prefix, split, parse_uint, show_nat,
}
use zcash_devtool_sqlx.Protocol.{Network, main_network, test_network}

pub record Server : Type 0 where
  pub host : Text
  pub port : ℕ

abbrev pub fixed : Text → ℕ → Server
fixed host port = record { host = host; port = port }

abbrev pub ecc_testnet : List Server
ecc_testnet = fixed (codes "lightwalletd.testnet.electriccoin.co") 9067 ∷ []

abbrev pub ywallet_mainnet : List Server
ywallet_mainnet =
    fixed (codes "lwd1.zcash-infra.com") 9067
    ∷ fixed (codes "lwd2.zcash-infra.com") 9067
    ∷ fixed (codes "lwd3.zcash-infra.com") 9067
    ∷ fixed (codes "lwd4.zcash-infra.com") 9067
    ∷ fixed (codes "lwd5.zcash-infra.com") 9067
    ∷ fixed (codes "lwd6.zcash-infra.com") 9067
    ∷ fixed (codes "lwd7.zcash-infra.com") 9067
    ∷ fixed (codes "lwd8.zcash-infra.com") 9067
    ∷ []

abbrev pub zec_rocks_mainnet : List Server
zec_rocks_mainnet =
    fixed (codes "zec.rocks") 443
    ∷ fixed (codes "ap.zec.rocks") 443
    ∷ fixed (codes "eu.zec.rocks") 443
    ∷ fixed (codes "na.zec.rocks") 443
    ∷ fixed (codes "sa.zec.rocks") 443
    ∷ []

abbrev pub zec_rocks_testnet : List Server
zec_rocks_testnet = fixed (codes "testnet.zec.rocks") 443 ∷ []

pub data ServerOperator : Type 0 where
  ecc ywallet zec_rocks : ServerOperator

unfoldable pub servers : ServerOperator → Network → List Server
servers ecc main_network = []
servers ecc test_network = ecc_testnet
servers ywallet main_network = ywallet_mainnet
servers ywallet test_network = []
servers zec_rocks main_network = zec_rocks_mainnet
servers zec_rocks test_network = zec_rocks_testnet

pub data Servers : Type 0 where
  hosted : ServerOperator → Servers
  custom : List Server → Servers

-- Errors, by the place that reports them.
pub data RemoteError : Type 0 where
  unknown_servers : Text → RemoteError
  not_served : ServerOperator → Network → RemoteError
  local_over_tor : RemoteError
  bad_proxy : Text → RemoteError
  bad_mode : RemoteError

-- The parts before and after the last separator.
abbrev pub from_end : ℕ → ℕ → Text → Option (Text × Text) → Option (Text × Text)
from_end sep c s (some (front, back)) = some (c ∷ front, back)
from_end sep c s none = if c == sep then some ([], s) else none

abbrev pub rsplit_once : ℕ → Text → Option (Text × Text)
rsplit_once sep [] = none
rsplit_once sep (c ∷ s) = from_end sep c s (rsplit_once sep s)

abbrev pub with_port : Text → Option ℕ → Option Server
with_port host none = none
with_port host (some port) = some (record { host = host; port = port })

abbrev pub at_colon : Option (Text × Text) → Option Server
at_colon none = none
at_colon (some (host, port_str)) = with_port host (parse_uint (2 ^ 16) port_str)

-- One server of a list: host:port.
unfoldable pub parse_server : Text → Option Server
parse_server sub = at_colon (rsplit_once 58 sub)

abbrev pub both : Option Server → Option (List Server) → Option (List Server)
both (some x) (some xs) = some (x ∷ xs)
both _ _ = none

-- All of them, or none.
unfoldable pub parse_servers : List Text → Option (List Server)
parse_servers [] = some []
parse_servers (sub ∷ rest) = both (parse_server sub) (parse_servers rest)

abbrev pub custom_of : Text → Option (List Server) → Result RemoteError Servers
custom_of s none = err (unknown_servers s)
custom_of s (some found) = ok (custom found)

unfoldable pub parse : Text → Result RemoteError Servers
parse s =
    if same s (codes "ecc")
    then ok (hosted ecc)
    else if same s (codes "ywallet")
    then ok (hosted ywallet)
    else if same s (codes "zecrocks")
    then ok (hosted zec_rocks)
    else custom_of s (parse_servers (split 44 s))

-- How picking a server ends.
pub data Pick : Type 0 where
  picked : Server → Pick
  pick_failed : RemoteError → Pick
  pick_panics : Pick

abbrev pub first_or : List Server → Pick → Pick
first_or [] p = p
first_or (x ∷ xs) p = picked x

unfoldable pub pick : Servers → Network → Pick
pick (hosted operator) network =
    first_or (servers operator network) (pick_failed (not_served operator network))
pick (custom found) network = first_or found pick_panics

abbrev pub ends_with : Text → Text → Bool
ends_with [] suffix = same [] suffix
ends_with (c ∷ s) suffix = same (c ∷ s) suffix || ends_with s suffix

-- How `connect` reaches a server, and whether with TLS.
pub data Channel (Proxy : Type 0) : Type 0 where
  direct_channel : Server → Bool → Channel Proxy
  tor_channel : Server → Bool → Channel Proxy
  socks_channel : Proxy → Server → Bool → Channel Proxy

pub data ConnectionMode (Proxy : Type 0) : Type 0 where
  direct : ConnectionMode Proxy
  built_in_tor : ConnectionMode Proxy
  socks_proxy : Proxy → ConnectionMode Proxy

pub record ConnectionArgs (Proxy : Type 0) : Type 0 where
  pub server : Servers
  pub connection : ConnectionMode Proxy
  pub disable_tor : Bool

-- What the standard library and the Tor and gRPC crates do.
pub record Net : Type 1 where
  pub Proxy : Type 0
  pub Client : Type 0
  pub Error : Type 0
  -- Whether a text is an IP address that is a loopback address.
  pub is_loopback : Text → Bool
  pub socket_addr : Text → Option Proxy
  pub remote_error : RemoteError → Error
  -- Starting the Tor client, which also creates its directory.
  pub start_tor : Result Error (Unit {0})
  pub dial : Channel Proxy → Text → Result Error Client

-- How a connection ends.
pub data Outcome (E A : Type 0) : Type 0 where
  connected : A → Outcome E A
  refused : E → Outcome E A
  panics : Outcome E A

abbrev pub outcome : {E A : Type 0} → Result E A → Outcome E A
outcome (ok a) = connected a
outcome (err e) = refused e

module _ (net : Net) where
  open net use {Proxy, Client, Error}

  unfoldable pub is_onion : Server → Bool
  is_onion server = ends_with server.host (codes ".onion")

  unfoldable pub is_localhost : Server → Bool
  is_localhost server = same server.host (codes "localhost") || net.is_loopback server.host

  unfoldable pub use_tls : Server → Bool
  use_tls server = not (is_localhost server) && not (is_onion server)

  unfoldable pub endpoint : Server → Text
  endpoint server =
      (if use_tls server then codes "https" else codes "http")
      ++ codes "://"
      ++ server.host
      ++ codes ":"
      ++ show_nat server.port

  -- The three ways to a server, each with TLS where `use_tls` says so.
  unfoldable pub connect_direct : Server → Result Error (Channel Proxy)
  connect_direct server = ok (direct_channel server (use_tls server))

  unfoldable pub connect_over_tor : Server → Result Error (Channel Proxy)
  connect_over_tor server =
      if is_localhost server
      then err (net.remote_error local_over_tor)
      else ok (tor_channel server (use_tls server))

  unfoldable pub connect_over_socks : Proxy → Server → Result Error (Channel Proxy)
  connect_over_socks proxy server = ok (socks_channel proxy server (use_tls server))

  -- Over Tor, unless the server is local.
  unfoldable pub connect : Server → Result Error (Channel Proxy)
  connect server =
      if use_tls server || is_onion server
      then net.start_tor >>= (λ _. connect_over_tor server)
      else connect_direct server

  abbrev pub proxy_mode : Text → Option Proxy → Result RemoteError (ConnectionMode Proxy)
  proxy_mode url none = err (bad_proxy url)
  proxy_mode url (some proxy) = ok (socks_proxy proxy)

  abbrev pub other_mode : Option Text → Result RemoteError (ConnectionMode Proxy)
  other_mode none = err bad_mode
  other_mode (some url) = proxy_mode url (net.socket_addr url)

  unfoldable pub parse_connection_mode : Text → Result RemoteError (ConnectionMode Proxy)
  parse_connection_mode s =
      if same s (codes "direct")
      then ok direct
      else if same s (codes "tor")
      then ok built_in_tor
      else other_mode (strip_prefix (codes "socks5://") s)

  unfoldable pub mode : ConnectionArgs Proxy → ConnectionMode Proxy
  mode args = if args.disable_tor then direct else args.connection

  unfoldable pub route : ConnectionMode Proxy → Server → Result Error (Channel Proxy)
  route direct server = connect_direct server
  route built_in_tor server = connect server
  route (socks_proxy proxy) server = connect_over_socks proxy server

  abbrev pub server_of : Channel Proxy → Server
  server_of (direct_channel server tls) = server
  server_of (tor_channel server tls) = server
  server_of (socks_channel proxy server tls) = server

  abbrev pub to_server : ConnectionMode Proxy → Pick → Outcome Error (Channel Proxy)
  to_server how pick_panics = panics
  to_server how (pick_failed e) = refused (net.remote_error e)
  to_server how (picked server) = outcome (route how server)

  -- The channel that is dialled, with the server's endpoint.
  unfoldable pub channel : ConnectionArgs Proxy → Network → Outcome Error (Channel Proxy)
  channel args network = to_server (mode args) (pick args.server network)

  abbrev pub dialled : Outcome Error (Channel Proxy) → Outcome Error Client
  dialled panics = panics
  dialled (refused e) = refused e
  dialled (connected c) = outcome (net.dial c (endpoint (server_of c)))

  unfoldable pub connect_args : ConnectionArgs Proxy → Network → Outcome Error Client
  connect_args args network = dialled (channel args network)
