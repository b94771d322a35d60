-- ===== src/Egress/Proxy/Approved.antt =====
-- What a client of the proxy has passed when its bytes reach a destination.
use prolewatch.Prelude.{
  ℕ, ◌≡◌, refl, ◌⊎◌, inl, inr, Bool, true, false, List, [], ◌∷◌, ◌++◌, Option, none, some, ltb,
  ◌==◌, if◌then◌else◌, Bytes, trim, Bool-cases, Option-cases,
}
use prolewatch.Egress.Host.{http_port, https_port}
use prolewatch.Egress.Broker.{Broker, World, Dialed, connected, refused, dial_public}
use prolewatch.Egress.Broker.Dial.{IsAuthorized, dial_public-IsAuthorized}
use prolewatch.Egress.Tunnel.Check.{
  Net, Checked, forward, reject, IsBound, is_address, is_bracket, check_tunnel_host,
  split_host_port_default, check_tunnel_host-IsBound,
}
use prolewatch.Egress.Proxy.{
  Greeting, closed, unacceptable, accepted, socks_greeting, Target, socks_request, HttpRequest,
  Reply, Tunnel, Relay, Handled, max_http_header_fields, open_tunnel, handle_socks, only_port,
  handle_connect, plain_host, handle_plain, handle_http, handle,
}

module _ (net : Net) (ip_string : Bytes → Bytes) (read_request : Bytes → Option HttpRequest) where
  -- A tunnel: authorized for its host and port, bound to its host, and carrying the client's bytes.
  pub record IsApproved (b after : Broker) (w : World) (t : Tunnel) : Type 0 where
    pub authorized : IsAuthorized net.parse_ip b after t.host t.port w t.ip
    pub bound : (is_address net (trim is_bracket t.host) ≡ true) ⊎ IsBound net t.host t.client
    pub whole : t.stream.seen ++ t.stream.unread ≡ t.client

  -- The connections that a handled client has got.
  abbrev pub AllApproved : Broker → World → Handled → Type 0
  AllApproved b w h =
      ((h.tunnel ≡ none) ⊎ ((t : Tunnel) × (h.tunnel ≡ some t) × IsApproved b h.broker w t))
      × ((h.relay ≡ none)
          ⊎ ((r : Relay) × (h.relay ≡ some r)
              × IsAuthorized net.parse_ip b h.broker r.host http_port w r.ip))

  open_tunnel-AllApproved :
      (b : Broker) (w : World) (consumed : ℕ) (greeting : List Reply) (opened rejected : Reply)
      (t : Target)
      → AllApproved b w
          (open_tunnel net ip_string read_request b w consumed greeting opened rejected t)
  unfolding open_tunnel
  open_tunnel-AllApproved b w consumed greeting opened rejected t =
      by_dial (dial_public net.parse_ip b t.host t.port w).2 refl
    where
      handled : Handled
      handled = open_tunnel net ip_string read_request b w consumed greeting opened rejected t

      by_check :
          (ip : Bytes) (c : Checked)
          → (dial_public net.parse_ip b t.host t.port w).2 ≡ connected ip
          → check_tunnel_host net consumed t.host t.rest ≡ c
          → AllApproved b w handled
      by_check ip (reject x) e k = rw (e, k, open_tunnel) (inl refl, inl refl)
      by_check ip (forward s) e k =
          let (whole, bound) = check_tunnel_host-IsBound net consumed t.host t.rest s k in
          let authorized = dial_public-IsAuthorized net.parse_ip b t.host t.port w ip e in
          rw (e, k, open_tunnel)
            (
              inr (_, refl, record { authorized = authorized; bound = bound; whole = whole }),
              inl refl,
            )

      by_dial :
          (d : Dialed)
          → (dial_public net.parse_ip b t.host t.port w).2 ≡ d
          → AllApproved b w handled
      by_dial (refused x) e = rw (e, open_tunnel) (inl refl, inl refl)
      by_dial (connected ip) e = by_check ip (check_tunnel_host net consumed t.host t.rest) e refl

  handle_socks-AllApproved :
      (b : Broker) (w : World) (consumed : ℕ) (input : Bytes)
      → AllApproved b w (handle_socks net ip_string read_request b w consumed input)
  unfolding handle_socks
  handle_socks-AllApproved b w consumed input = by_greeting (socks_greeting input) refl
    where
      by_target :
          (rest : Bytes) (o : Option Target)
          → socks_greeting input ≡ accepted rest
          → socks_request ip_string rest ≡ o
          → AllApproved b w (handle_socks net ip_string read_request b w consumed input)
      by_target rest none e f = rw (e, f, handle_socks) (inl refl, inl refl)
      by_target rest (some t) e f =
          rw (e, f, handle_socks) (open_tunnel-AllApproved b w consumed _ _ _ t)

      by_greeting :
          (g : Greeting)
          → socks_greeting input ≡ g
          → AllApproved b w (handle_socks net ip_string read_request b w consumed input)
      by_greeting closed e = rw (e, handle_socks) (inl refl, inl refl)
      by_greeting unacceptable e = rw (e, handle_socks) (inl refl, inl refl)
      by_greeting (accepted rest) e = by_target rest (socks_request ip_string rest) e refl

  handle_connect-AllApproved :
      (b : Broker) (w : World) (consumed : ℕ) (r : HttpRequest)
      → AllApproved b w (handle_connect net ip_string read_request b w consumed r)
  unfolding handle_connect
  handle_connect-AllApproved b w consumed r =
      by_host
        (only_port net ip_string read_request https_port
          (split_host_port_default net r.host https_port))
        refl
    where
      by_host :
          (o : Option Bytes)
          → only_port net ip_string read_request https_port
              (split_host_port_default net r.host https_port)
            ≡ o
          → AllApproved b w (handle_connect net ip_string read_request b w consumed r)
      by_host none e = rw (e, handle_connect) (inl refl, inl refl)
      by_host (some host) e = rw (e, handle_connect) (open_tunnel-AllApproved b w consumed _ _ _ _)

  handle_plain-AllApproved :
      (b : Broker) (w : World) (r : HttpRequest)
      → AllApproved b w (handle_plain net ip_string read_request b w r)
  unfolding handle_plain
  handle_plain-AllApproved b w r = by_host (plain_host net ip_string read_request r) refl
    where
      by_dial :
          (host : Bytes) (d : Dialed)
          → plain_host net ip_string read_request r ≡ some host
          → (dial_public net.parse_ip b host http_port w).2 ≡ d
          → AllApproved b w (handle_plain net ip_string read_request b w r)
      by_dial host (refused x) e f = rw (e, f, handle_plain) (inl refl, inl refl)
      by_dial host (connected ip) e f =
          let authorized = dial_public-IsAuthorized net.parse_ip b host http_port w ip f in
          rw (e, f, handle_plain) (inl refl, inr (_, refl, authorized))

      by_host :
          (o : Option Bytes)
          → plain_host net ip_string read_request r ≡ o
          → AllApproved b w (handle_plain net ip_string read_request b w r)
      by_host none e = rw (e, handle_plain) (inl refl, inl refl)
      by_host (some host) e = by_dial host (dial_public net.parse_ip b host http_port w).2 e refl

  AllApproved-if :
      (b : Broker) (w : World) (c : Bool) (h k : Handled)
      → AllApproved b w h
      → AllApproved b w k
      → AllApproved b w (if c then h else k)
  AllApproved-if b w true h k x y = x
  AllApproved-if b w false h k x y = y

  handle_http-AllApproved :
      (b : Broker) (w : World) (consumed : ℕ) (input : Bytes)
      → AllApproved b w (handle_http net ip_string read_request b w consumed input)
  unfolding handle_http
  handle_http-AllApproved b w consumed input = elim (Option-cases (read_request input)) [
    | inl e ↦ rw (e, handle_http) (inl refl, inl refl)
    | inr (r, e) ↦
        rw (e, handle_http)
          (AllApproved-if b w (ltb max_http_header_fields r.fields) _ _ (inl refl, inl refl)
            (AllApproved-if b w r.is_connect _ _ (handle_connect-AllApproved b w consumed r)
              (handle_plain-AllApproved b w r)))
  ]

  -- Whatever bytes a client of the proxy sends: if it gets a tunnel, the tunnel's host and port have
  -- passed every check of dialPublic, the bytes behind the request name the host of the tunnel or the
  -- host is an address, and the tunnel carries these bytes unchanged; if a plain HTTP request is
  -- relayed, its host has passed every check of dialPublic for port 80.
  pub handle-AllApproved :
      (b : Broker) (w : World) (consumed : ℕ) (input : Bytes)
      → AllApproved b w (handle net ip_string read_request b w consumed input)
  unfolding handle
  handle-AllApproved b w consumed [] = (inl refl, inl refl)
  handle-AllApproved b w consumed (first ∷ input) = elim (Bool-cases (first == 5)) [
    | inl socks ↦ rw (socks, handle) (handle_socks-AllApproved b w consumed (first ∷ input))
    | inr http ↦ rw (http, handle) (handle_http-AllApproved b w consumed (first ∷ input))
  ]
