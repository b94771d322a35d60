-- ===== src/Tests/Proxies.antt =====
-- Examples for the proxy handlers of internal/egress/broker.go.
use prolewatch.Prelude.{true, [], ◌∷◌, ◌++◌, Option, none, some, Bytes, codes}
use prolewatch.Egress.Broker.{Broker, World, response}
use prolewatch.Egress.Tunnel.Check.{Net}
use prolewatch.Egress.Proxy.{HttpRequest, handle}
use prolewatch.Egress.Proxy.Approved.{AllApproved, handle-AllApproved}
use prolewatch.Tests.Hosts.{policy, public_ip, parse_loopback}

abbrev net : Net
net = record {
  Address = Bytes;
  parse_ip = parse_loopback;
  split_host_port = λ s. none;
  atoi = λ s. none;
}

abbrev broker : Broker
broker = record {
  allowed_hosts = [];
  max_destinations = 1;
  policy = policy;
  grants = [];
  asked = [];
}

abbrev world : World
world = record {
  exchange = response 1 true;
  lookup = some (public_ip ∷ []);
  reachable = λ ip. true;
}

abbrev no_request : Bytes → Option HttpRequest
no_request s = none

-- A SOCKS client that asks for h.org:80 and then speaks HTTP to it.
abbrev client : Bytes
client =
    5
    ∷ 1
    ∷ 0
    ∷ 5
    ∷ 1
    ∷ 0
    ∷ 3
    ∷ 5
    ∷ (codes "h.org" ++ (0 ∷ 80 ∷ codes "GET / HTTP/1.1\r\nHost: h.org\r\n\r\n"))

handle-AllApproved_example :
    AllApproved net
      (λ s. s)
      no_request
      broker
      world
      (handle net (λ s. s) no_request broker world 32 client)
handle-AllApproved_example = handle-AllApproved net (λ s. s) no_request broker world 32 client
