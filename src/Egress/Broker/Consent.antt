-- ===== src/Egress/Broker/Consent.antt =====
-- The grant table over any sequence of authorize calls.
use prolewatch.Prelude.{
  ℕ, ◌≤◌, ◌≡◌, refl, ◌∙◌, true, List, [], ◌∷◌, none, leb, length, IsIn, here, there, Bytes,
  bytes_eq, bytes_eq_iff, arith, Bool-cases, inl, inr, ◌⊎◌, Option-cases,
}
use prolewatch.Egress.Broker.{Broker, Exchange, contains_key, grant_key, judge, ask, authorize}

-- One call: the destination, and what the prompt agent answers if it is asked.
pub record Request : Type 0 where
  pub host : Bytes
  pub port : ℕ
  pub exchange : Exchange

abbrev pub key_of : Request → Bytes
key_of r = grant_key r.host r.port

unfoldable pub authorize_all : Broker → List Request → Broker
authorize_all b [] = b
authorize_all b (r ∷ rs) = authorize_all (authorize b r.host r.port r.exchange).0 rs

-- What holds of the tables between two calls.
pub record IsBounded (b : Broker) : Type 0 where
  pub asked_bounded : length b.asked ≤ b.max_destinations
  pub grants_asked :
      (key : Bytes) → contains_key key b.grants ≡ true → contains_key key b.asked ≡ true

contains_key-cons :
    (key k : Bytes) (ks : List Bytes)
    → contains_key key ks ≡ true
    → contains_key key (k ∷ ks) ≡ true
contains_key-cons key k ks h = ground arith

ask-IsBounded :
    (b : Broker) (host : Bytes) (port : ℕ) (x : Exchange)
    → IsBounded b
    → contains_key (grant_key host port) b.asked ≡ true
    → IsBounded (ask b host port x).0
unfolding ask
ask-IsBounded b host port x v h = elim (Option-cases (judge x)) [
  | inl granted ↦
      rw (granted, ask) (record { asked_bounded = v.asked_bounded; grants_asked = keep })
  | inr r ↦ rw (r.1, ask) v
]
  where
    keep :
        (key : Bytes)
        → contains_key key (grant_key host port ∷ b.grants) ≡ true
        → contains_key key b.asked ≡ true
    keep key g = elim (Bool-cases (bytes_eq key (grant_key host port))) [
      | inl same ↦ rw ((bytes_eq_iff key (grant_key host port)).0 same) h
      | inr other ↦ v.grants_asked key (ground arith)
    ]

authorize-IsBounded :
    (b : Broker) (host : Bytes) (port : ℕ) (x : Exchange)
    → IsBounded b
    → IsBounded (authorize b host port x).0
unfolding authorize
authorize-IsBounded b host port x v =
    let key = grant_key host port in
    elim (Bool-cases (contains_key key b.grants)) [
      | inl old ↦ rw old v
      | inr new ↦ rw new (elim (Bool-cases (contains_key key b.asked)) [
        | inl seen ↦ rw seen (ask-IsBounded b host port x v seen)
        | inr first ↦ rw first (elim (Bool-cases (leb b.max_destinations (length b.asked))) [
          | inl full ↦ rw full v
          | inr room ↦ rw room (
              ask-IsBounded (record b { asked = key ∷ b.asked }) host port x
                (record {
                  asked_bounded = ground arith;
                  grants_asked = λ k g. contains_key-cons k key b.asked (v.grants_asked k g);
                })
                (ground (arith, bytes_eq_iff key key)))
        ])
      ])
    ]

authorize_limit :
    (b : Broker) (host : Bytes) (port : ℕ) (x : Exchange)
    → (authorize b host port x).0.max_destinations ≡ b.max_destinations
unfolding authorize ask
authorize_limit b host port x = ground arith

authorize_all-IsBounded :
    (b : Broker) (rs : List Request)
    → IsBounded b
    → IsBounded (authorize_all b rs) × ((authorize_all b rs).max_destinations ≡ b.max_destinations)
unfolding authorize_all
authorize_all-IsBounded b [] v = (v, refl)
authorize_all-IsBounded b (r ∷ rs) v =
    let b' = (authorize b r.host r.port r.exchange).0 in
    let (bounded, same) =
      authorize_all-IsBounded b' rs (authorize-IsBounded b r.host r.port r.exchange v) in
    (bounded, same ∙ authorize_limit b r.host r.port r.exchange)

-- A grant that one call adds is the call's own, and the exchange was a consent.
authorize-granted :
    (b : Broker) (host : Bytes) (port : ℕ) (x : Exchange) (key : Bytes)
    → contains_key key (authorize b host port x).0.grants ≡ true
    → (contains_key key b.grants ≡ true) ⊎ ((grant_key host port ≡ key) × (judge x ≡ none))
unfolding authorize ask
authorize-granted b host port x key h = elim (Bool-cases (contains_key key b.grants)) [
  | inl old ↦ inl old
  | inr new ↦ ground (arith, bytes_eq_iff key (grant_key host port))
]

-- The call among `rs` in which the user consented to `key`.
abbrev pub Consented : Bytes → List Request → Type 0
Consented key rs = (r : Request) × IsIn r rs × (key_of r ≡ key) × (judge r.exchange ≡ none)

authorize_all-granted :
    (b : Broker) (rs : List Request) (key : Bytes)
    → contains_key key (authorize_all b rs).grants ≡ true
    → (contains_key key b.grants ≡ true) ⊎ Consented key rs
unfolding authorize_all
authorize_all-granted b [] key h = inl h
authorize_all-granted b (r ∷ rs) key h =
    elim (authorize_all-granted (authorize b r.host r.port r.exchange).0 rs key h) [
      | inl now ↦ elim (authorize-granted b r.host r.port r.exchange key now) [
        | inl old ↦ inl old
        | inr own ↦ inr (r, here refl, own.0, own.1)
      ]
      | inr later ↦ inr (later.0, there later.1, later.2, later.3)
    ]

-- Whatever the sandbox requests, and whatever the prompt agent answers: a broker that starts with
-- empty tables and room for some destinations has asked about no more than `max_destinations` of
-- them, and a grant that it holds goes back to a request for that very key which the agent answered
-- by a well-formed consent.
pub authorize_all-Consented :
    (b : Broker) (rs : List Request) (key : Bytes)
    → b.grants ≡ []
    → b.asked ≡ []
    → contains_key key (authorize_all b rs).grants ≡ true
    → (length (authorize_all b rs).asked ≤ b.max_destinations) × Consented key rs
authorize_all-Consented b rs key no_grants no_asked h =
    let start : IsBounded b = record {
      asked_bounded = ground arith;
      grants_asked = λ k g. ground arith;
    } in
    let (bounded, same) = authorize_all-IsBounded b rs start in
    (
      omega (arith, bounded.asked_bounded),
      elim (authorize_all-granted b rs key h) [
        | inl old ↦ absurd (ground arith)
        | inr found ↦ found
      ],
    )
