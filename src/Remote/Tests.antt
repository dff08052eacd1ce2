-- ===== src/Remote/Tests.antt =====
-- Runs of the choice of servers, and the theorems at concrete servers.
use zcash_devtool_sqlx.Base.{
  ◌≡◌, ◌≢◌, refl, true, false, some, [], ◌∷◌, map, ok, arith, Text, codes, same, split, join,
}
use zcash_devtool_sqlx.Protocol.{main_network, test_network}
use zcash_devtool_sqlx.Remote.{
  Server, custom, parse, parse_servers, parse_server, RemoteError, pick, pick_panics, Net,
  tor_channel, built_in_tor, route, connect, connect_over_tor, use_tls, is_onion, is_localhost,
  endpoint, socks_proxy, parse_connection_mode, fixed, connect_args, channel, mode, connected,
  hosted, zec_rocks, servers,
}
use zcash_devtool_sqlx.Remote.Picked.{
  written, parse_servers-join, pick-parse, IsPrivate, IsAsAsked, route-IsPrivate,
}

abbrev local_server : Server
local_server = fixed (codes "::1") 9067

abbrev named_server : Server
named_server = fixed (codes "z.io") 443

abbrev net : Net
net = record {
  Proxy = Text;
  Client = Text;
  Error = RemoteError;
  is_loopback = same (codes "::1");
  socket_addr = some;
  remote_error = λ e. e;
  start_tor = ok tt;
  dial = λ c e. ok e;
}

dialled_endpoint :
    connect_args net
      (record { server = hosted zec_rocks; connection = built_in_tor; disable_tor = false })
      main_network
    ≡ connected (codes "https://zec.rocks:443")
unfolding connect_args channel mode pick servers route connect connect_over_tor use_tls is_onion
    is_localhost endpoint
dialled_endpoint = refl

proxied :
    parse_connection_mode net (codes "socks5://[::1]:9050") ≡ ok (socks_proxy (codes "[::1]:9050"))
unfolding parse_connection_mode
proxied = refl

parsed : parse (codes "::1:9067,z.io:443") ≡ ok (custom (local_server ∷ named_server ∷ []))
unfolding parse parse_servers parse_server
parsed = refl

parse_servers-join_example :
    parse_servers (split 44 (join 44 (map written (local_server ∷ named_server ∷ []))))
    ≡ some (local_server ∷ named_server ∷ [])
parse_servers-join_example = parse_servers-join local_server (named_server ∷ []) (
  ((λ e. omega (arith, e), (λ e. omega (arith, e), (λ e. omega (arith, e), tt))), omega arith),
  (
    (
      (
        λ e. omega (arith, e),
        (λ e. omega (arith, e), (λ e. omega (arith, e), (λ e. omega (arith, e), tt))),
      ),
      omega arith,
    ),
    tt,
  ),
)

pick-parse_example : pick (custom (local_server ∷ named_server ∷ [])) test_network ≢ pick_panics
pick-parse_example =
    pick-parse (codes "::1:9067,z.io:443") (custom (local_server ∷ named_server ∷ [])) test_network
      parsed

named_over_tor : route net built_in_tor named_server ≡ ok (tor_channel named_server true)
unfolding route connect connect_over_tor use_tls is_onion is_localhost
named_over_tor = refl

route-IsPrivate_example :
    IsPrivate net (tor_channel named_server true)
    × IsAsAsked net built_in_tor named_server (tor_channel named_server true)
route-IsPrivate_example =
    route-IsPrivate net built_in_tor named_server (tor_channel named_server true) named_over_tor
