-- ===== src/Tests/Tunnels.antt =====
-- Examples for the tunnel checks of internal/egress/broker.go.
use prolewatch.Prelude.{
  ◌≡◌, ◌≢◌, refl, true, [], ◌∷◌, ◌++◌, none, ◌⊎◌, replicate, Bytes, bytes_eq, codes, trim,
  trim_space, cut,
}
use prolewatch.Egress.Host.{is_label_byte, valid_label, valid_request_host}
use prolewatch.Egress.Tunnel.Hello.{name, out_of_fuel, client_hello_server_name}
use prolewatch.Egress.Tunnel.Fuel.{client_hello_server_name-ends}
use prolewatch.Egress.Tunnel.RoundTrip.{Hello, put_hello, client_hello_server_name-put}
use prolewatch.Egress.Tunnel.Check.{
  Net, Stream, forward, IsBound, split_host_port_default, host_header, header_lines,
  http_request_host, tunnel_requested_host, check_tunnel_host, check_tunnel_host-IsBound,
  is_bracket, is_address,
}
use prolewatch.Tests.Hosts.{parse_loopback}

client_hello_server_name-ends_example :
    client_hello_server_name (1 ∷ 0 ∷ 0 ∷ 1 ∷ 3 ∷ []) ≢ out_of_fuel
client_hello_server_name-ends_example = client_hello_server_name-ends (1 ∷ 0 ∷ 0 ∷ 1 ∷ 3 ∷ [])

abbrev hello : Hello
hello = record {
  size = (0, 0, 90);
  version = (3, 3);
  random = replicate 32 7;
  session_id = 9 ∷ [];
  cipher_suites = 0x13 ∷ 1 ∷ [];
  compression = 0 ∷ [];
  before = (record { kind = 10; payload = 1 ∷ 2 ∷ [] }) ∷ [];
  host = codes "h.org";
  after = (record { kind = 16; payload = [] }) ∷ [];
}

client_hello_server_name-put_example :
    client_hello_server_name (put_hello hello) ≡ name (codes "h.org")
client_hello_server_name-put_example = client_hello_server_name-put hello refl (λ e. cc, tt)

abbrev net : Net
net = record {
  Address = Bytes;
  parse_ip = parse_loopback;
  split_host_port = λ s. none;
  atoi = λ s. none;
}

abbrev request : Bytes
request = codes "GET / HTTP/1.1\r\nHost: H.org.\r\n\r\nbody"

abbrev stream : Stream
stream = record { seen = codes "GET / HTTP/1.1\r\n"; unread = codes "Host: H.org.\r\n\r\nbody" }

forward_test : check_tunnel_host net 16 (codes "h.org") request ≡ forward stream
unfolding check_tunnel_host tunnel_requested_host http_request_host header_lines host_header
    split_host_port_default valid_request_host valid_label is_label_byte bytes_eq trim_space cut
forward_test = refl

check_tunnel_host-IsBound_example :
    (stream.seen ++ stream.unread ≡ request)
    × ((is_address net (trim is_bracket (codes "h.org")) ≡ true)
        ⊎ IsBound net (codes "h.org") request)
check_tunnel_host-IsBound_example =
    check_tunnel_host-IsBound net 16 (codes "h.org") request stream forward_test
