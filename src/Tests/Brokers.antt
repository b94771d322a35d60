-- ===== src/Tests/Brokers.antt =====
-- Examples for internal/egress/broker.go.
use prolewatch.Prelude.{
  all, ◌≡◌, refl, ◌≤◌, true, List, [], ◌∷◌, some, length, any, Bytes, bytes_eq, codes, decimal,
}
use prolewatch.Egress.Host.{is_label_byte, valid_label, valid_request_host}
use prolewatch.Egress.Address.Ip.{
  equal, to4, contains, is_global_unicast, is_unspecified, is_loopback, is_private, is_multicast,
  is_link_local_unicast, is_link_local_multicast,
}
use prolewatch.Egress.Address.{is_public, permits_port, excluded, non_public_networks}
use prolewatch.Egress.Broker.{
  Broker, World, response, connected, contains_key, grant_key, judge, ask, authorize, permits_host,
  dial_first, connect, dial_public,
}
use prolewatch.Egress.Broker.Consent.{Request, Consented, authorize_all, authorize_all-Consented}
use prolewatch.Egress.Broker.Dial.{
  is_contact, IsAuthorized, dial_public-IsAuthorized, contact_needs_grant,
}
use prolewatch.Tests.Hosts.{policy, public_ip, parse_loopback}

abbrev site : Bytes
site = codes "h.org"

abbrev broker : Broker
broker = record {
  allowed_hosts = [];
  max_destinations = 1;
  policy = policy;
  grants = [];
  asked = [];
}

abbrev yes_to_site : Request
yes_to_site = record { host = site; port = 443; exchange = response 1 true }

abbrev no_to_other : Request
no_to_other = record { host = codes "other.org"; port = 80; exchange = response 1 true }

abbrev requests : List Request
requests = yes_to_site ∷ no_to_other ∷ []

authorize_all-Consented_example :
    (length (authorize_all broker requests).asked ≤ 1) × Consented (grant_key site 443) requests
unfolding authorize_all authorize ask judge grant_key decimal bytes_eq
authorize_all-Consented_example =
    authorize_all-Consented broker requests (grant_key site 443) refl refl refl

abbrev world : World
world = record {
  exchange = response 1 true;
  lookup = some (public_ip ∷ []);
  reachable = λ ip. true;
}

connected_test : (dial_public parse_loopback broker site 443 world).2 ≡ connected public_ip
unfolding dial_public permits_port valid_request_host valid_label is_label_byte permits_host
    authorize ask judge grant_key decimal connect dial_first is_public excluded is_global_unicast
    is_unspecified is_loopback is_private is_multicast is_link_local_unicast is_link_local_multicast
    equal to4 contains non_public_networks bytes_eq
connected_test = refl

dial_public-IsAuthorized_example :
    IsAuthorized parse_loopback broker
      (dial_public parse_loopback broker site 443 world).0
      site
      443
      world
      public_ip
dial_public-IsAuthorized_example =
    dial_public-IsAuthorized parse_loopback broker site 443 world public_ip connected_test

contact_test : any is_contact (dial_public parse_loopback broker site 443 world).1 ≡ true
unfolding dial_public permits_port valid_request_host valid_label is_label_byte permits_host
    authorize ask judge grant_key decimal connect dial_first is_public excluded is_global_unicast
    is_unspecified is_loopback is_private is_multicast is_link_local_unicast is_link_local_multicast
    equal to4 contains non_public_networks bytes_eq
contact_test = refl

contact_needs_grant_example :
    contains_key (grant_key site 443) (dial_public parse_loopback broker site 443 world).0.grants
    ≡ true
contact_needs_grant_example = contact_needs_grant parse_loopback broker site 443 world contact_test

site_valid : valid_request_host parse_loopback site ≡ true
unfolding valid_request_host valid_label is_label_byte bytes_eq
site_valid = refl

answers_public_test : all (is_public policy) (public_ip ∷ []) ≡ true
unfolding is_public excluded is_global_unicast is_unspecified is_loopback is_private is_multicast
    is_link_local_unicast is_link_local_multicast equal to4 contains non_public_networks bytes_eq
answers_public_test = refl
