-- ===== src/Egress/Broker.antt =====
-- internal/egress/broker.go: the decision to connect. The prompt agent, the resolver and the TCP
-- dialer answer from outside: their answers are arguments, and the calls that reach them are
-- recorded in order as events.
pub mod Key
pub mod Consent
pub mod Dial
use prolewatch.Prelude.{
  ℕ, ◌+◌, Bool, true, false, not, ◌&&◌, ◌||◌, List, [], ◌∷◌, ◌++◌, Option, none, some, leb, ltb,
  ◌==◌, if◌then◌else◌, length, all, any, Bytes, bytes_eq, to_lower, trim_last, decimal,
}
use prolewatch.Egress.Host.{valid_request_host, http_port, https_port}
use prolewatch.Egress.Address.{AddressPolicy, permits_port, is_public}

pub data DialError : Type 0 where
  port_denied invalid_host undeclared_host destination_limit agent_unavailable : DialError
  request_failed response_failed denied dns_failed non_public_address all_failed : DialError

-- What comes of one exchange with the prompt agent, in the order in which authorize meets it.
-- `response v allow` is a decoded AuthorizationResponse.
pub data Exchange : Type 0 where
  dial_failed write_failed read_failed oversized undecodable : Exchange
  response : ℕ → Bool → Exchange

pub data Event : Type 0 where
  asked_user : Bytes → ℕ → Event
  looked_up : Bytes → Event
  dialed : Bytes → Event

-- The fields of networkBroker that a decision reads or writes; `grants` and `asked` are the sets of
-- keys that their maps hold.
pub record Broker : Type 0 where
  pub allowed_hosts : List Bytes
  pub max_destinations : ℕ
  pub policy : AddressPolicy
  pub grants : List Bytes
  pub asked : List Bytes

-- `strings.ToLower(host) + ":" + strconv.Itoa(port)`.
unfoldable pub grant_key : Bytes → ℕ → Bytes
grant_key host port = to_lower host ++ (b':' ∷ decimal port)

abbrev pub contains_key : Bytes → List Bytes → Bool
contains_key key = any (bytes_eq key)

-- The verdict on an exchange: `none` is consent.
unfoldable pub judge : Exchange → Option DialError
judge dial_failed = some agent_unavailable
judge write_failed = some request_failed
judge read_failed = some response_failed
judge oversized = some response_failed
judge undecodable = some denied
judge (response version allow) = if version == 1 && allow then none else some denied

-- The part of authorize after the limit: ask, and grant on consent.
unfoldable pub ask : Broker → Bytes → ℕ → Exchange → Broker × List Event × Option DialError
unfolding judge grant_key
ask b host port x = (
  elim (judge x) [ none ↦ record b { grants = grant_key host port ∷ b.grants } | some e ↦ b ],
  asked_user (to_lower host) port ∷ [],
  judge x,
)

unfoldable pub authorize : Broker → Bytes → ℕ → Exchange → Broker × List Event × Option DialError
unfolding ask grant_key
authorize b host port x =
    let key = grant_key host port in
    if contains_key key b.grants
    then (b, [], none)
    else if contains_key key b.asked
    then ask b host port x
    else if leb b.max_destinations (length b.asked)
    then (b, [], some destination_limit)
    else ask (record b { asked = key ∷ b.asked }) host port x

-- networkBroker.permitsHost.
unfoldable pub permits_host : Broker → Bytes → Bool
permits_host b host =
    if length b.allowed_hosts == 0
    then true
    else any (bytes_eq (to_lower (trim_last b'.' host))) b.allowed_hosts

-- The loop over the addresses: the first that can be dialed is the connection.
unfoldable pub dial_first : (Bytes → Bool) → List Bytes → List Event × Option Bytes
dial_first reachable [] = ([], none)
dial_first reachable (ip ∷ ips) =
    let rest = dial_first reachable ips in
    if reachable ip then (dialed ip ∷ [], some ip) else (dialed ip ∷ rest.0, rest.1)

pub data Dialed : Type 0 where
  connected : Bytes → Dialed
  refused : DialError → Dialed

-- The part of dialPublic after consent: `answer` is what the resolver says, `none` for an error.
unfoldable pub connect :
    AddressPolicy → Bytes → Option (List Bytes) → (Bytes → Bool) → List Event × Dialed
unfolding dial_first
connect policy host none reachable = (looked_up host ∷ [], refused dns_failed)
connect policy host (some []) reachable = (looked_up host ∷ [], refused dns_failed)
connect policy host (some (ip ∷ ips)) reachable =
    if all (is_public policy) (ip ∷ ips)
    then (
      looked_up host ∷ (dial_first reachable (ip ∷ ips)).0,
      elim (dial_first reachable (ip ∷ ips)).1 [ some c ↦ connected c | none ↦ refused all_failed ],
    )
    else (looked_up host ∷ [], refused non_public_address)

-- What the world answers to one call of dialPublic.
pub record World : Type 0 where
  pub exchange : Exchange
  pub lookup : Option (List Bytes)
  pub reachable : Bytes → Bool

module _ {Address : Type 0} (parse_ip : Bytes → Option Address) where
  unfoldable pub dial_public : Broker → Bytes → ℕ → World → Broker × List Event × Dialed
  unfolding authorize connect permits_host
  dial_public b host port w =
      if not (permits_port b.policy port)
      then (b, [], refused port_denied)
      else if not (valid_request_host parse_ip host)
      then (b, [], refused invalid_host)
      else if not (permits_host b host)
      then (b, [], refused undeclared_host)
      else let (after, asks, verdict) = authorize b host port w.exchange in
        elim verdict [
          | some e ↦ (after, asks, refused e)
          | none ↦
              let (events, conn) = connect b.policy host w.lookup w.reachable in
              (after, asks ++ events, conn)
        ]
