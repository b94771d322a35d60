-- ===== src/Egress/Broker/Dial.antt =====
-- What a connection through dialPublic has passed, and what the sandbox can cause without consent.
use prolewatch.Prelude.{
  ℕ, ◌<◌, ◌⊎◌, length, ◌≡◌, refl, Bool, true, false, List, [], ◌∷◌, Option, none, some, all, any,
  IsIn, here, there, Bytes, bytes_eq_iff, arith, Bool-cases, inl, inr,
}
use prolewatch.Egress.Host.{valid_request_host}
use prolewatch.Egress.Address.{AddressPolicy, permits_port, is_public}
use prolewatch.Egress.Broker.{
  judge, Broker, Exchange, Event, asked_user, looked_up, dialed, contains_key, grant_key, ask,
  authorize, World, connect, dial_first, connected, dial_public, permits_host,
}

-- An event by which the broker acts on the network.
abbrev pub is_contact : Event → Bool
is_contact (asked_user _ _) = false
is_contact (looked_up _) = true
is_contact (dialed _) = true

dial_first-IsIn :
    (reachable : Bytes → Bool) (ips : List Bytes) (ip : Bytes)
    → (dial_first reachable ips).1 ≡ some ip
    → IsIn ip ips × (reachable ip ≡ true)
unfolding dial_first
dial_first-IsIn reachable [] ip h = absurd (cc)
dial_first-IsIn reachable (x ∷ ips) ip h = elim (Bool-cases (reachable x)) [
  | inl up ↦ let same : ip ≡ x = ground arith in (here same, rw same up)
  | inr down ↦
      let later = dial_first-IsIn reachable ips ip (ground arith) in (there later.0, later.1)
]

-- A connection leads to an address that the resolver named, all of whose answers were public.
connect-connected :
    (policy : AddressPolicy) (host : Bytes) (answer : Option (List Bytes))
    (reachable : Bytes → Bool) (ip : Bytes)
    → (connect policy host answer reachable).1 ≡ connected ip
    → (ips : List Bytes) × (answer ≡ some ips) × IsIn ip ips × (all (is_public policy) ips ≡ true)
unfolding connect
connect-connected policy host none reachable ip h = absurd (cc)
connect-connected policy host (some []) reachable ip h = absurd (cc)
connect-connected policy host (some (x ∷ ips)) reachable ip h =
    elim (Bool-cases (all (is_public policy) (x ∷ ips))) [
      | inl pub' ↦ (x ∷ ips, refl, (dial_first-IsIn reachable (x ∷ ips) ip (ground arith)).0, pub')
      | inr mixed ↦ absurd (ground arith)
    ]

authorize-ok :
    (b : Broker) (host : Bytes) (port : ℕ) (x : Exchange)
    → (authorize b host port x).2 ≡ none
    → contains_key (grant_key host port) (authorize b host port x).0.grants ≡ true
unfolding authorize ask
authorize-ok b host port x h =
    ground (arith, bytes_eq_iff (grant_key host port) (grant_key host port))

module _ {Address : Type 0} (parse_ip : Bytes → Option Address) where
  -- The checks behind an established connection.
  pub record IsAuthorized (b after : Broker) (host : Bytes) (port : ℕ) (w : World) (ip : Bytes)
      : Type 0 where
    pub port_allowed : permits_port b.policy port ≡ true
    pub host_valid : valid_request_host parse_ip host ≡ true
    pub host_declared : permits_host b host ≡ true
    pub consented : contains_key (grant_key host port) after.grants ≡ true
    pub answers : List Bytes
    pub answered : w.lookup ≡ some answers
    pub from_answer : IsIn ip answers
    pub answers_public : all (is_public b.policy) answers ≡ true

  dial_public_parts :
      (b : Broker) (host : Bytes) (port : ℕ) (w : World) (ip : Bytes)
      → (dial_public parse_ip b host port w).2 ≡ connected ip
      → (permits_port b.policy port ≡ true)
        × (valid_request_host parse_ip host ≡ true)
        × (permits_host b host ≡ true)
        × ((authorize b host port w.exchange).2 ≡ none)
        × ((connect b.policy host w.lookup w.reachable).1 ≡ connected ip)
        × ((dial_public parse_ip b host port w).0 ≡ (authorize b host port w.exchange).0)
  unfolding dial_public
  dial_public_parts b host port w ip h = ground arith

  -- A connection to `ip` that dialPublic hands back was made to an allowed port of a valid host in
  -- the phase's declared set, with a grant for that host and port in the table; `ip` is one of the
  -- resolver's answers, and every one of the answers is public.
  pub dial_public-IsAuthorized :
      (b : Broker) (host : Bytes) (port : ℕ) (w : World) (ip : Bytes)
      → (dial_public parse_ip b host port w).2 ≡ connected ip
      → IsAuthorized b (dial_public parse_ip b host port w).0 host port w ip
  dial_public-IsAuthorized b host port w ip h =
      let (port_ok, host_ok, declared, granted, made, after) =
        dial_public_parts b host port w ip h in
      let (ips, looked, found, all_public) =
        connect-connected b.policy host w.lookup w.reachable ip made in
      record {
        port_allowed = port_ok;
        host_valid = host_ok;
        host_declared = declared;
        consented = rw after (authorize-ok b host port w.exchange granted);
        answers = ips;
        answered = looked;
        from_answer = found;
        answers_public = all_public;
      }

  contacts_connect :
      (b : Broker) (host : Bytes) (port : ℕ) (w : World)
      → any is_contact (dial_public parse_ip b host port w).1 ≡ true
      → ((authorize b host port w.exchange).2 ≡ none)
        × ((dial_public parse_ip b host port w).0 ≡ (authorize b host port w.exchange).0)
  unfolding dial_public authorize ask
  contacts_connect b host port w h = ground arith

  -- The broker resolves a name or dials an address on behalf of a request only with a grant for
  -- that host and port in the table: without consent no packet names the destination.
  pub contact_needs_grant :
      (b : Broker) (host : Bytes) (port : ℕ) (w : World)
      → any is_contact (dial_public parse_ip b host port w).1 ≡ true
      → contains_key (grant_key host port) (dial_public parse_ip b host port w).0.grants ≡ true
  contact_needs_grant b host port w h =
      let (granted, after) = contacts_connect b host port w h in
      rw after (authorize-ok b host port w.exchange granted)

  authorize-consented :
      (b : Broker) (host : Bytes) (port : ℕ) (x : Exchange)
      → (contains_key (grant_key host port) b.grants ≡ true)
        ⊎ ((length b.asked < b.max_destinations) × (judge x ≡ none))
      → (authorize b host port x).2 ≡ none
  unfolding authorize ask
  authorize-consented b host port x (inl granted) = ground arith
  authorize-consented b host port x (inr (room, yes')) = ground arith

  connect-first :
      (policy : AddressPolicy) (host ip : Bytes) (ips : List Bytes) (reachable : Bytes → Bool)
      → all (is_public policy) (ip ∷ ips) ≡ true
      → reachable ip ≡ true
      → (connect policy host (some (ip ∷ ips)) reachable).1 ≡ connected ip
  unfolding connect dial_first
  connect-first policy host ip ips reachable all_public up = ground arith

  -- dialPublic connects to the first answer of the resolver if it can be dialed, all answers are
  -- public, the port is allowed, the host is valid and declared, and there is a grant, or room for
  -- one more destination and the user consents.
  pub dial_public-connects :
      (b : Broker) (host : Bytes) (port : ℕ) (w : World) (ip : Bytes) (ips : List Bytes)
      → permits_port b.policy port ≡ true
      → valid_request_host parse_ip host ≡ true
      → permits_host b host ≡ true
      → (contains_key (grant_key host port) b.grants ≡ true)
        ⊎ ((length b.asked < b.max_destinations) × (judge w.exchange ≡ none))
      → w.lookup ≡ some (ip ∷ ips)
      → all (is_public b.policy) (ip ∷ ips) ≡ true
      → w.reachable ip ≡ true
      → (dial_public parse_ip b host port w).2 ≡ connected ip
  unfolding dial_public
  dial_public-connects b host port w ip ips p v d consent found all_public up =
      let granted = authorize-consented b host port w.exchange consent in
      let made = connect-first b.policy host ip ips w.reachable all_public up in ground arith
