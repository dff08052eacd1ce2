-- ===== src/Remote/Picked.antt =====
-- Which servers are read and picked, and how the connection to them is made (src/remote.rs).
use zcash_devtool_sqlx.Base.{
  ℕ, ◌^◌, ◌<◌, ◌≡◌, ◌≢◌, ◌⊎◌, inl, inr, refl, ap, ◌∙◌, Bool, true, false, ◌||◌, Option, none, some,
  List, [], ◌∷◌, ◌++◌, map, ok, err, ◌>>=◌, arith, All, All-append, Text, codes, same, split, join,
  show_nat, parse_uint-show_nat, no_char-show_nat, split-join, length, length-split, IfOk, IfOk-ok,
  IfOk-err, IfOk-if, IfOk-value, IfOk-bind, Bool-cases, if◌then◌else◌,
}
use zcash_devtool_sqlx.Protocol.{Network}
use zcash_devtool_sqlx.Remote.{
  Server, Servers, custom, hosted, servers, ecc, ywallet, zec_rocks, RemoteError, rsplit_once,
  from_end, at_colon, with_port, parse_server, both, parse_servers, custom_of, parse, pick_failed,
  pick_panics, first_or, pick, Net, Channel, direct_channel, tor_channel, socks_channel,
  ConnectionMode, direct, built_in_tor, socks_proxy, is_onion, is_localhost, use_tls,
  local_over_tor, connect_direct, connect_over_tor, connect_over_socks, connect, route,
}

-- The text of a server: its host, a colon, and its port.
abbrev pub written : Server → Text
written server = server.host ++ 58 ∷ show_nat server.port

rsplit_none : (sep : ℕ) (s : Text) → All (λ c. ¬ (c ≡ sep)) s → rsplit_once sep s ≡ none
rsplit_none sep [] h = refl
rsplit_none sep (c ∷ s) (hc, h) = ap (from_end sep c s) (rsplit_none sep s h) ∙ ground (arith, hc)

rsplit_last :
    (sep : ℕ) (x s : Text) → All (λ c. ¬ (c ≡ sep)) s → rsplit_once sep (x ++ sep ∷ s) ≡ some (x, s)
rsplit_last sep [] s h = ap (from_end sep sep s) (rsplit_none sep s h) ∙ ground arith
rsplit_last sep (c ∷ x) s h = ap (from_end sep c (x ++ sep ∷ s)) (rsplit_last sep x s h)

parse_server-written :
    (server : Server) → server.port < 2 ^ 16 → parse_server (written server) ≡ some server
unfolding parse_server
parse_server-written server h =
    ap at_colon (
      rsplit_last 58 server.host (show_nat server.port)
        (no_char-show_nat 58 server.port (inr (omega arith))))
    ∙ ap (with_port server.host) (parse_uint-show_nat (2 ^ 16) server.port h)

-- A server that a list can name: its host has no comma, and its port fits in 16 bits.
abbrev pub IsNameable : Server → Type 0
IsNameable server = All (λ c. ¬ (c ≡ 44)) server.host × (server.port < 2 ^ 16)

parse_servers-written :
    (found : List Server) → All IsNameable found → parse_servers (map written found) ≡ some found
unfolding parse_servers
parse_servers-written [] h = refl
parse_servers-written (server ∷ rest) (h, hs) =
    rw (parse_server-written server h.1, parse_servers-written rest hs)

no_commas :
    (found : List Server) → All IsNameable found → All (All (λ c. ¬ (c ≡ 44))) (map written found)
no_commas [] h = tt
no_commas (server ∷ rest) (h, hs) = (
  All-append _ server.host (58 ∷ show_nat server.port) h.0
      (λ e. omega (arith, e), no_char-show_nat 44 server.port (inl (omega arith))),
  no_commas rest hs,
)

-- A list of servers with at least one, written as host:port with commas between them, is read back
-- whole (given that no host has a comma, and that the ports fit in 16 bits; a host may have colons).
pub parse_servers-join :
    (server : Server) (rest : List Server)
    → All IsNameable (server ∷ rest)
    → parse_servers (split 44 (join 44 (map written (server ∷ rest)))) ≡ some (server ∷ rest)
parse_servers-join server rest h =
    ap parse_servers
      (split-join 44 (written server) (map written rest) (no_commas (server ∷ rest) h))
    ∙ parse_servers-written (server ∷ rest) h

-- A list of servers is not empty.
abbrev IsFull : Servers → Type 0
IsFull (hosted operator) = Unit
IsFull (custom []) = ⊥
IsFull (custom (_ ∷ _)) = Unit

IsFull-custom :
    (s : Text) (o : Option Server) (m : Option (List Server)) → IfOk IsFull (custom_of s (both o m))
IsFull-custom s none m = IfOk-err _
IsFull-custom s (some x) none = IfOk-err _
IsFull-custom s (some x) (some xs) = IfOk-ok _ tt

IsFull-split :
    (s : Text) (pieces : List Text)
    → 0 < length pieces
    → IfOk IsFull (custom_of s (parse_servers pieces))
unfolding parse_servers
IsFull-split s [] h = absurd (omega arith)
IsFull-split s (x ∷ xs) h = IsFull-custom s (parse_server x) (parse_servers xs)

IsFull-parse : (s : Text) → IfOk IsFull (parse s)
unfolding parse
IsFull-parse s =
    let listed = custom_of s (parse_servers (split 44 s)) in
    let zecrocks = if same s (codes "zecrocks") then ok (hosted zec_rocks) else listed in
    let named = if same s (codes "ywallet") then ok (hosted ywallet) else zecrocks in
    IfOk-if (same s (codes "ecc")) (ok (hosted ecc)) named (λ _. IfOk-ok (hosted ecc) tt)
      (λ _.
        IfOk-if (same s (codes "ywallet")) (ok (hosted ywallet)) zecrocks
          (λ _. IfOk-ok (hosted ywallet) tt)
          (λ _.
            IfOk-if (same s (codes "zecrocks")) (ok (hosted zec_rocks)) listed
              (λ _. IfOk-ok (hosted zec_rocks) tt)
              (λ _. IsFull-split s (split 44 s) (length-split 44 s))))

first_or_lem :
    (found : List Server) (e : RemoteError) → first_or found (pick_failed e) ≢ pick_panics
first_or_lem [] e h = ground (arith, h)
first_or_lem (x ∷ xs) e h = ground (arith, h)

pick-IsFull :
    (found : Servers) (network : Network) → IsFull found → pick found network ≢ pick_panics
unfolding pick
pick-IsFull (hosted operator) network h = first_or_lem (servers operator network) _
pick-IsFull (custom []) network h = absurd h
pick-IsFull (custom (x ∷ xs)) network h = λ e. ground (arith, e)

-- Picking a server never panics if the servers come from the command line, whatever is written
-- there: `parse` gives no empty list.
pub pick-parse :
    (s : Text) (found : Servers) (network : Network)
    → parse s ≡ ok found
    → pick found network ≢ pick_panics
pick-parse s found network e =
    pick-IsFull found network (IfOk-value (parse s) found (IsFull-parse s) e)

or_true : (a b : Bool) → a || b ≡ true → (a ≡ true) ⊎ (b ≡ true)
or_true true b h = inl refl
or_true false b h = inr h

or_false : (a b : Bool) → a || b ≡ false → (a ≡ false) × (b ≡ false)
or_false true b h = absurd (ground (arith, h))
or_false false b h = (refl, h)

module _ (net : Net) where
  open net use {Proxy, Error}

  -- A channel is private if it has TLS, or its server is local or an onion service.
  abbrev pub IsPrivate : Channel Proxy → Type 0
  IsPrivate (direct_channel server tls) =
      (tls ≡ true) ⊎ ((is_localhost net server ≡ true) ⊎ (is_onion net server ≡ true))
  IsPrivate (tor_channel server tls) = (tls ≡ true) ⊎ (is_onion net server ≡ true)
  IsPrivate (socks_channel proxy server tls) =
      (tls ≡ true) ⊎ ((is_localhost net server ≡ true) ⊎ (is_onion net server ≡ true))

  -- In Tor mode a connection that is not over Tor goes to a local server.
  abbrev pub IsAsAsked : ConnectionMode Proxy → Server → Channel Proxy → Type 0
  IsAsAsked direct server c = c ≡ direct_channel server (use_tls net server)
  IsAsAsked built_in_tor server c =
      ((c ≡ tor_channel server (use_tls net server)) × (is_localhost net server ≡ false))
      ⊎ ((c ≡ direct_channel server false) × (is_localhost net server ≡ true))
  IsAsAsked (socks_proxy proxy) server c = c ≡ socks_channel proxy server (use_tls net server)

  tls_cases :
      (server : Server)
      → (use_tls net server ≡ true)
        ⊎ ((is_localhost net server ≡ true) ⊎ (is_onion net server ≡ true))
  unfolding use_tls
  tls_cases server = elim (Bool-cases (is_localhost net server)) [
    | inl l ↦ inr (inl l)
    | inr l ↦ elim (Bool-cases (is_onion net server)) [
      | inl o ↦ inr (inr o)
      | inr o ↦ inl (rw (l, o))
    ]
  ]

  local_lem :
      (server : Server)
      → use_tls net server ≡ false
      → is_onion net server ≡ false
      → is_localhost net server ≡ true
  local_lem server no_tls no_onion = ground (arith, tls_cases server)

  abbrev IsGood : ConnectionMode Proxy → Server → Channel Proxy → Type 0
  IsGood how server c = IsPrivate c × IsAsAsked how server c

  direct-IsGood :
      (server : Server)
      → use_tls net server || is_onion net server ≡ false
      → IfOk (IsGood built_in_tor server) (connect_direct net server)
  unfolding connect_direct
  direct-IsGood server asked =
      let (no_tls, no_onion) = or_false (use_tls net server) (is_onion net server) asked in
      let l = local_lem server no_tls no_onion in
      IfOk-ok _ (inr (inl l), inr (ap (direct_channel server) no_tls, l))

  tor-IsGood :
      (server : Server)
      → use_tls net server || is_onion net server ≡ true
      → IfOk (IsGood built_in_tor server) (connect_over_tor net server)
  unfolding connect_over_tor
  tor-IsGood server asked =
      IfOk-if (is_localhost net server) (err (net.remote_error local_over_tor))
        (ok (tor_channel server (use_tls net server))) (λ _. IfOk-err _)
        (λ remote.
          IfOk-ok _ (or_true (use_tls net server) (is_onion net server) asked, inl (refl, remote)))

  connect-IsGood : (server : Server) → IfOk (IsGood built_in_tor server) (connect net server)
  unfolding connect
  connect-IsGood server =
      IfOk-if (use_tls net server || is_onion net server)
        (net.start_tor >>= (λ _. connect_over_tor net server)) (connect_direct net server)
        (λ asked.
          IfOk-bind net.start_tor (λ _. connect_over_tor net server) (λ _. tor-IsGood server asked))
        (direct-IsGood server)

  route-IsGood :
      (how : ConnectionMode Proxy) (server : Server)
      → IfOk (IsGood how server) (route net how server)
  unfolding route connect_direct connect_over_socks
  route-IsGood direct server = IfOk-ok _ (tls_cases server, refl)
  route-IsGood built_in_tor server = connect-IsGood server
  route-IsGood (socks_proxy proxy) server = IfOk-ok _ (tls_cases server, refl)

  -- Every connection is private and made in the way that was asked for: without TLS only to a local
  -- server or an onion service, never over Tor to a local server, and in Tor mode directly to a
  -- local server only.
  pub route-IsPrivate :
      (how : ConnectionMode Proxy) (server : Server) (c : Channel Proxy)
      → route net how server ≡ ok c
      → IsPrivate c × IsAsAsked how server c
  route-IsPrivate how server c e = IfOk-value (route net how server) c (route-IsGood how server) e
