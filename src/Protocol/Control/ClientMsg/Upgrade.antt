-- ===== src/Protocol/Control/ClientMsg/Upgrade.antt =====
-- What the server reads from the message of a client, whichever version the client sends.
use qcp.Prelude.{
  ℕ, ◌≡◌, refl, Bool, true, false, Option, none, some, List, [], ◌∷◌, ◌++◌, arith, if◌then◌else◌,
  ◌∙◌, ap, Bool-cases, inl, inr,
}
use qcp.Protocol.Variant.{Variant, empty, unsigned, into_bytes}
use qcp.Protocol.DataTag.{TaggedData, with_unsigned, find_tag}
use qcp.Protocol.DataTag.Laws.{
  sent, find_tag-push_some, find_tag-nil, find_tag-append, find_tag-one,
}
use qcp.Protocol.Compat.{Compatibility, cmsg_smsg_2, supports}
use qcp.Protocol.Control.{
  CongestionController, ConnectionType, Direction, direction_to_u64, CredentialsType,
  ClientMessageAttributes, ClientMessage2Attributes, client_attribute_tag, client_attribute2_tag,
}
use qcp.Util.PortRange.{PortRange}
use qcp.Config.{ConfigurationOptional}
use qcp.Protocol.Control.ClientMsg.{
  v1, v2, ClientMessageV1, ClientMessageV2, flag, some_nonzero, congestion_variant, rx_bw, upgrade,
  apply_config_attributes, new_v1, new_v2, new_message, set_direction, received,
}

-- The parameters of a request, with the numbers as they are sent.
pub record Request : Type 0 where
  pub show_config : Bool
  pub port : Option PortRange
  pub to_server : Option ℕ
  pub to_client : Option ℕ
  pub rtt : Option ℕ
  pub congestion : Option CongestionController
  pub window : Option ℕ
  pub timeout : Option ℕ
  pub direction : Option Variant

-- What a search for a tag is meant to find.
abbrev pub asked : Request → ClientMessage2Attributes → Option Variant
asked r ClientMessage2Attributes.invalid = none
asked r ClientMessage2Attributes.direction_of_travel = r.direction
asked r ClientMessage2Attributes.port_range_start =
    sent true (λ (pr : PortRange). unsigned pr.begin) r.port
asked r ClientMessage2Attributes.port_range_end =
    sent true (λ (pr : PortRange). unsigned pr.end) r.port
asked r ClientMessage2Attributes.output_config = sent true (λ _. empty) (flag r.show_config)
asked r ClientMessage2Attributes.bandwidth_to_server = sent true unsigned r.to_server
asked r ClientMessage2Attributes.bandwidth_to_client = sent true unsigned r.to_client
asked r ClientMessage2Attributes.round_trip_time = sent true unsigned r.rtt
asked r ClientMessage2Attributes.congestion_controller_type =
    sent true congestion_variant r.congestion
asked r ClientMessage2Attributes.initial_congestion_window = sent true unsigned r.window
asked r ClientMessage2Attributes.quic_timeout = sent true unsigned r.timeout

-- The request that a first version makes.
abbrev pub request_of : ClientMessageV1 → Request
request_of m = record {
  show_config = m.show_config;
  port = m.port;
  to_server = m.bandwidth_to_server;
  to_client = m.bandwidth_to_client;
  rtt = m.rtt;
  congestion = m.congestion;
  window = m.initial_congestion_window;
  timeout = m.timeout;
  direction = find_tag ClientMessageAttributes.direction_of_travel m.attributes;
}

-- The upgrade keeps every parameter: a search for a tag in the second version finds what the first
-- version holds in the field of that name.
pub find_tag-upgrade :
    (m : ClientMessageV1) (t : ClientMessage2Attributes)
    → find_tag t (upgrade m).attributes ≡ asked (request_of m) t
unfolding upgrade
find_tag-upgrade m ClientMessage2Attributes.invalid = simp find_tag-push_some (ground arith)
find_tag-upgrade m _ = simp find_tag-push_some (ground arith)

-- The request that a client's configuration stands for; `to_server` differs by version.
abbrev pub request_for : Option ℕ → Bool → ConfigurationOptional → Direction → Request
request_for to_server remote_config c direction = record {
  show_config = remote_config;
  port = c.remote_port;
  to_server = to_server;
  to_client = c.rx;
  rtt = c.rtt;
  congestion = c.congestion;
  window = c.initial_congestion_window;
  timeout = c.timeout;
  direction = some (unsigned (direction_to_u64 direction));
}

-- What the server holds once the client has made its message, set the direction and sent it.
abbrev pub delivered :
    Compatibility
    → TaggedData CredentialsType
    → ConnectionType
    → Bool
    → ConfigurationOptional
    → Direction
    → Option ClientMessageV2
delivered compat cert kind remote_config c direction =
    elim (new_message compat cert kind remote_config c) [
      | none ↦ none
      | some m ↦ received (set_direction direction m)
    ]

abbrev pub search : ClientMessage2Attributes → Option ClientMessageV2 → Option Variant
search t none = none
search t (some m) = find_tag t m.attributes

module _ (cert : TaggedData CredentialsType) (cert_bytes : List ℕ)
    (valid : into_bytes cert.payload ≡ some cert_bytes) (kind : ConnectionType)
    (remote_config : Bool) (c : ConfigurationOptional) (direction : Direction) where
  new_message_v2 :
      (compat : Compatibility)
      → supports compat cmsg_smsg_2 ≡ true
      → new_message compat cert kind remote_config c
        ≡ some (v2 (apply_config_attributes remote_config c (new_v2 cert kind)))
  unfolding new_message
  new_message_v2 compat h = rw (valid, new_message) (rw h)

  new_message_v1 :
      (compat : Compatibility)
      → supports compat cmsg_smsg_2 ≡ false
      → new_message compat cert kind remote_config c
        ≡ some (v1 (new_v1 cert_bytes kind remote_config c))
  unfolding new_message
  new_message_v1 compat h = rw (valid, new_message) (rw h)

  find_tag-apply :
      (t : ClientMessage2Attributes)
      → find_tag t (
          (apply_config_attributes remote_config c (new_v2 cert kind)).attributes
          ++ with_unsigned ClientMessage2Attributes.direction_of_travel (direction_to_u64 direction)
            ∷ [])
        ≡ asked (request_for (rx_bw c) remote_config c direction) t
  unfolding apply_config_attributes new_v2 with_unsigned
  find_tag-apply ClientMessage2Attributes.invalid =
      simp (find_tag-append, find_tag-push_some, find_tag-one, find_tag-nil) (ground arith)
  find_tag-apply _ =
      simp (find_tag-append, find_tag-push_some, find_tag-one, find_tag-nil) (ground arith)

  delivered_v2 :
      (compat : Compatibility) (t : ClientMessage2Attributes)
      → supports compat cmsg_smsg_2 ≡ true
      → search t (delivered compat cert kind remote_config c direction)
        ≡ asked (request_for (rx_bw c) remote_config c direction) t
  unfolding set_direction received
  delivered_v2 compat t h = rw (new_message_v2 compat h, delivered) (find_tag-apply t)

  -- The first version with its direction.
  first : ClientMessageV1
  first =
      let m = new_v1 cert_bytes kind remote_config c in
      record m {
        attributes =
            m.attributes
            ++ with_unsigned ClientMessageAttributes.direction_of_travel
                (direction_to_u64 direction)
              ∷ [];
      }

  request_of-first : request_of first ≡ request_for (some_nonzero c.tx) remote_config c direction
  unfolding first new_v1 find_tag with_unsigned
  request_of-first = refl

  delivered_v1 :
      (compat : Compatibility) (t : ClientMessage2Attributes)
      → supports compat cmsg_smsg_2 ≡ false
      → search t (delivered compat cert kind remote_config c direction)
        ≡ asked (request_for (some_nonzero c.tx) remote_config c direction) t
  unfolding set_direction received first
  delivered_v1 compat t h =
      rw (new_message_v1 compat h, delivered)
        (find_tag-upgrade first t ∙ ap (λ r. asked r t) request_of-first)

  -- Whatever version the agreed level calls for, the server finds the same request under every tag,
  -- but for the bandwidth to the server: without a `tx` of its own the client asks for its `rx` in
  -- the second version and for nothing in the first.
  pub delivered_lem :
      (compat : Compatibility) (t : ClientMessage2Attributes)
      → search t (delivered compat cert kind remote_config c direction)
        ≡ asked
            (request_for
              (if supports compat cmsg_smsg_2 then rx_bw c else some_nonzero c.tx)
              remote_config
              c
              direction)
            t
  delivered_lem compat t = elim (Bool-cases (supports compat cmsg_smsg_2)) [
    | inl h ↦ rw (h, request_for) (delivered_v2 compat t h)
    | inr h ↦ rw (h, request_for) (delivered_v1 compat t h)
  ]
