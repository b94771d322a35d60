-- ===== src/Egress/Proxy.antt =====
-- internal/egress/broker.go: handle, handleSOCKS and handleHTTP, from the first byte of a client to
-- the tunnel that it gets. The client is the list of bytes that it sends; http.ReadRequest and
-- net.IP.String are parameters, and http.Transport dials once and relays the response.
pub mod Approved
use prolewatch.Prelude.{
  ℕ, ◌+◌, ◌*◌, Bool, true, false, not, ◌&&◌, ◌||◌, List, [], ◌∷◌, ◌++◌, Option, none, some, ltb,
  ◌==◌, if◌then◌else◌, length, any, Bytes, bytes_eq, codes, take, drop, is_empty,
}
use prolewatch.Egress.Host.{http_port, https_port}
use prolewatch.Egress.Broker.{Broker, Event, World, connected, refused, dial_public}
use prolewatch.Egress.Tunnel.Check.{
  Net, Stream, forward, reject, check_tunnel_host, split_host_port_default,
}

-- io.ReadFull of `n` bytes.
abbrev pub read_full : ℕ → Bytes → Option (Bytes × Bytes)
read_full n s = if ltb (length s) n then none else some (take n s, drop n s)

pub data Greeting : Type 0 where
  closed : Greeting
  unacceptable : Greeting
  accepted : Bytes → Greeting

-- The version and the methods; `rest` is what follows them.
unfoldable pub socks_greeting : Bytes → Greeting
socks_greeting (version ∷ count ∷ rest) =
    if not (version == 5) || count == 0 || ltb 32 count
    then closed
    else elim (read_full count rest) [
      | none ↦ closed
      | some (methods, after) ↦ if any (λ m. m == 0) methods then accepted after else unacceptable
    ]
socks_greeting _ = closed

pub record Target : Type 0 where
  pub host : Bytes
  pub port : ℕ
  pub rest : Bytes

-- The port behind a host; with a host cut short there is none.
unfoldable pub with_port : Option (Bytes × Bytes) → Option Target
with_port (some (host, hi ∷ lo ∷ rest)) =
    some (record { host = host; port = hi * 256 + lo; rest = rest })
with_port _ = none

abbrev map_host : (Bytes → Bytes) → Option (Bytes × Bytes) → Option (Bytes × Bytes)
map_host f none = none
map_host f (some (raw, rest)) = some (f raw, rest)

abbrev counted : Bytes → Option (Bytes × Bytes)
counted [] = none
counted (n ∷ rest) = if n == 0 then none else read_full n rest

unfoldable pub socks_request : (Bytes → Bytes) → Bytes → Option Target
unfolding with_port
socks_request ip_string (version ∷ command ∷ reserved ∷ kind ∷ rest) =
    if not (version == 5) || not (command == 1)
    then none
    else if kind == 1
    then with_port (map_host ip_string (read_full 4 rest))
    else if kind == 4
    then with_port (map_host ip_string (read_full 16 rest))
    else if kind == 3
    then with_port (counted rest)
    else none
socks_request ip_string _ = none

-- What http.ReadRequest says of a request: `url` is its scheme and host.
pub record HttpRequest : Type 0 where
  pub fields : ℕ
  pub is_connect : Bool
  pub host : Bytes
  pub url : Option (Bytes × Bytes)
  pub rest : Bytes

-- The answers that the client gets: SOCKS bytes, an HTTP status, or a relayed response.
pub data Reply : Type 0 where
  socks_reply : Bytes → Reply
  http_status : ℕ → Reply

-- A connection of the client to `ip`: a tunnel carries `stream`, a relay one HTTP exchange.
pub record Tunnel : Type 0 where
  pub host : Bytes
  pub port : ℕ
  pub ip : Bytes
  pub client : Bytes
  pub stream : Stream

pub record Relay : Type 0 where
  pub host : Bytes
  pub port : ℕ
  pub ip : Bytes

pub record Handled : Type 0 where
  pub broker : Broker
  pub replies : List Reply
  pub events : List Event
  pub tunnel : Option Tunnel
  pub relay : Option Relay

abbrev pub max_http_header_fields : ℕ
max_http_header_fields = 200

abbrev idle : Broker → List Reply → Handled
idle b replies = record { broker = b; replies = replies; events = []; tunnel = none; relay = none }

module _ (net : Net) (ip_string : Bytes → Bytes) (read_request : Bytes → Option HttpRequest) where
  -- The end of both handlers of a tunnel: dial, answer, check what the client names.
  unfoldable pub open_tunnel : Broker → World → ℕ → List Reply → Reply → Reply → Target → Handled
  open_tunnel b w consumed greeting opened rejected target =
      let (after, events, dialed) = dial_public net.parse_ip b target.host target.port w in
      elim dialed [
        | refused e ↦ record {
          broker = after;
          replies = greeting ++ (rejected ∷ []);
          events = events;
          tunnel = none;
          relay = none;
        }
        | connected ip ↦ elim (check_tunnel_host net consumed target.host target.rest) [
          | reject e ↦ record {
            broker = after;
            replies = greeting ++ (opened ∷ []);
            events = events;
            tunnel = none;
            relay = none;
          }
          | forward s ↦ record {
            broker = after;
            replies = greeting ++ (opened ∷ []);
            events = events;
            tunnel = some (record {
              host = target.host;
              port = target.port;
              ip = ip;
              client = target.rest;
              stream = s;
            });
            relay = none;
          }
        ]
      ]

  unfoldable pub handle_socks : Broker → World → ℕ → Bytes → Handled
  handle_socks b w consumed input = elim (socks_greeting input) [
    | closed ↦ idle b []
    | unacceptable ↦ idle b (socks_reply (5 ∷ 0xff ∷ []) ∷ [])
    | accepted rest ↦ elim (socks_request ip_string rest) [
      | none ↦ idle b (socks_reply (5 ∷ 0 ∷ []) ∷ [])
      | some target ↦
          open_tunnel b w consumed (socks_reply (5 ∷ 0 ∷ []) ∷ [])
            (socks_reply (5 ∷ 0 ∷ 0 ∷ 1 ∷ 0 ∷ 0 ∷ 0 ∷ 0 ∷ 0 ∷ 0 ∷ []))
            (socks_reply (5 ∷ 2 ∷ 0 ∷ 1 ∷ 0 ∷ 0 ∷ 0 ∷ 0 ∷ 0 ∷ 0 ∷ [])) target
    ]
  ]

  -- A port that is not the one of the scheme is refused before the dial.
  unfoldable pub only_port : ℕ → Option (Bytes × ℕ) → Option Bytes
  only_port wanted none = none
  only_port wanted (some (host, port)) = if port == wanted then some host else none

  unfoldable pub handle_connect : Broker → World → ℕ → HttpRequest → Handled
  handle_connect b w consumed r =
      elim (only_port https_port (split_host_port_default net r.host https_port)) [
        | none ↦ idle b (http_status 403 ∷ [])
        | some host ↦
            open_tunnel b w consumed [] (http_status 200) (http_status 403)
              (record { host = host; port = https_port; rest = r.rest })
      ]

  -- The host of a plain request.
  unfoldable pub plain_host : HttpRequest → Option Bytes
  unfolding only_port
  plain_host r = elim r.url [
    | none ↦ none
    | some (scheme, authority) ↦
        if not (bytes_eq scheme (codes "http")) || is_empty authority
        then none
        else only_port http_port (split_host_port_default net authority http_port)
  ]

  unfoldable pub handle_plain : Broker → World → HttpRequest → Handled
  handle_plain b w r = elim (plain_host r) [
    | none ↦ idle b (http_status 403 ∷ [])
    | some host ↦
        let (after, events, dialed) = dial_public net.parse_ip b host http_port w in
        elim dialed [
          | refused e ↦ record {
            broker = after;
            replies = http_status 502 ∷ [];
            events = events;
            tunnel = none;
            relay = none;
          }
          | connected ip ↦ record {
            broker = after;
            replies = [];
            events = events;
            tunnel = none;
            relay = some (record { host = host; port = http_port; ip = ip });
          }
        ]
  ]

  unfoldable pub handle_http : Broker → World → ℕ → Bytes → Handled
  handle_http b w consumed input = elim (read_request input) [
    | none ↦ idle b []
    | some r ↦
        if ltb max_http_header_fields r.fields
        then idle b []
        else if r.is_connect
        then handle_connect b w consumed r
        else handle_plain b w r
  ]

  unfoldable pub handle : Broker → World → ℕ → Bytes → Handled
  handle b w consumed [] = idle b []
  handle b w consumed (first ∷ input) =
      if first == 5
      then handle_socks b w consumed (first ∷ input)
      else handle_http b w consumed (first ∷ input)
