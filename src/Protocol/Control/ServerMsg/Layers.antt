-- ===== src/Protocol/Control/ServerMsg/Layers.antt =====
-- What a client makes of the message of a server, whichever version the server sends.
use qcp.Prelude.{
  ℕ, ◌≡◌, refl, true, false, Option, none, some, List, [], ◌∷◌, ◌++◌, if◌then◌else◌, get_or, ok,
  err, ◌>>=◌, >>=_step, >>=-ok, arith, Bool-cases, inl, inr, sym,
}
use qcp.Prelude.Text.{Str}
use qcp.Protocol.Variant.{Variant, unsigned, string, into_bytes, coerce_unsigned}
use qcp.Protocol.DataTag.{TaggedData, new, find_tag, push_some}
use qcp.Protocol.DataTag.Laws.{sent, find_tag-push_some, find_tag-nil, tag-new}
use qcp.Protocol.Compat.{Compatibility, cmsg_smsg_2, supports}
use qcp.Protocol.Control.{
  CongestionController, cubic, bbr, new_reno, congestion_to_u64, congestion_from_repr,
  CredentialsType, ServerMessage2Attributes, server_attribute2_tag,
}
use qcp.Protocol.Control.ClientMsg.{congestion_variant}
use qcp.Config.{Configuration, ConfigurationOptional, rx, tx}
use qcp.Config.Manager.{over}
use qcp.Protocol.Control.ServerMsg.{
  ServerMessageV1, ServerMessageV2, v1, v2, Attributes, nonzero, non_empty, non_default,
  push_window, push_timeout, upgrade, apply_config_attributes, new_v1, new_v2, new_message,
  received, insert_tag, insert_attribute, insert_attributes, provider_data,
}

insert_sent {κ} :
    {A : Type κ}
    → ServerMessage2Attributes
    → (A → Variant)
    → Option A
    → ConfigurationOptional
    → ConfigurationOptional
unfolding insert_tag
insert_sent e f none dict = dict
insert_sent e f (some a) dict = insert_tag e (coerce_unsigned (f a)) dict

insert_attribute-new :
    (e : ServerMessage2Attributes) (v : Variant) (d : ConfigurationOptional)
    → insert_attribute (new e v) d ≡ ok (insert_tag e (coerce_unsigned v) d)
unfolding insert_attribute
insert_attribute-new e v d = rw (tag-new e v, insert_attribute) (unfold new in refl)

insert_attributes-append :
    (xs : Attributes) (e : ServerMessage2Attributes) (v : Variant) (d : ConfigurationOptional)
    → insert_attributes (xs ++ new e v ∷ []) d
      ≡ (insert_attributes xs d >>= λ d'. ok (insert_tag e (coerce_unsigned v) d'))
unfolding insert_attributes
insert_attributes-append [] e v d = rw (insert_attribute-new e v d)
insert_attributes-append (x ∷ xs) e v d =
    >>=_step (insert_attribute x d) (insert_attributes (xs ++ new e v ∷ [])) (insert_attributes xs)
      (λ d'. ok (insert_tag e (coerce_unsigned v) d')) (insert_attributes-append xs e v)

insert_attributes-push_some {κ} :
    {A : Type κ} (e : ServerMessage2Attributes) (f : A → Variant) (o : Option A) (xs : Attributes)
    (d : ConfigurationOptional)
    → insert_attributes (push_some e f o xs) d
      ≡ (insert_attributes xs d >>= λ d'. ok (insert_sent e f o d'))
unfolding push_some insert_sent
insert_attributes-push_some e f none xs d = sym (>>=-ok (insert_attributes xs d))
insert_attributes-push_some e f (some a) xs d = insert_attributes-append xs e (f a) d

-- The congestion controller is read back from its number.
congestion_round_trip :
    (cc : CongestionController)
    → get_or (congestion_from_repr (coerce_unsigned (congestion_variant cc))) cubic ≡ cc
unfolding congestion_from_repr congestion_to_u64 coerce_unsigned
congestion_round_trip cubic = refl
congestion_round_trip bbr = refl
congestion_round_trip new_reno = refl

insert_sent_congestion :
    (o : Option CongestionController) (d : ConfigurationOptional)
    → insert_sent ServerMessage2Attributes.congestion_controller congestion_variant o d
      ≡ record d { congestion = over o d.congestion }
unfolding insert_sent
insert_sent_congestion none d = refl
insert_sent_congestion (some cc) d = rw (congestion_round_trip cc)

insert_sent_window :
    (o : Option ℕ) (d : ConfigurationOptional)
    → insert_sent ServerMessage2Attributes.initial_congestion_window unsigned o d
      ≡ record d { initial_congestion_window = over o d.initial_congestion_window }
unfolding insert_sent coerce_unsigned
insert_sent_window none d = refl
insert_sent_window (some n) d = refl

insert_sent_timeout :
    (o : Option ℕ) (d : ConfigurationOptional)
    → insert_sent ServerMessage2Attributes.quic_timeout unsigned o d
      ≡ record d { timeout = over o d.timeout }
unfolding insert_sent coerce_unsigned
insert_sent_timeout none d = refl
insert_sent_timeout (some n) d = refl

insert_sent_warning :
    (o : Option Str) (d : ConfigurationOptional)
    → insert_sent ServerMessage2Attributes.warning_message string o d ≡ d
unfolding insert_sent
insert_sent_warning none d = refl
insert_sent_warning (some w) d = refl

over-none {ℓ} : {A : Type ℓ} (o : Option A) → over o none ≡ o
over-none none = refl
over-none (some a) = refl

insert_attributes-nil : (d : ConfigurationOptional) → insert_attributes [] d ≡ ok d
unfolding insert_attributes
insert_attributes-nil d = refl

-- What the message says of a server's configuration; the controller differs by version.
abbrev pub layer_of : Configuration → Option CongestionController → ConfigurationOptional
layer_of c congestion = record {
  rx = some (tx c);
  tx = some (rx c);
  rtt = some c.rtt;
  congestion = congestion;
  initial_congestion_window = nonzero c.initial_congestion_window;
  port = none;
  remote_port = none;
  timeout = nonzero c.timeout;
  udp_buffer = none;
  initial_mtu = none;
  min_mtu = none;
  max_mtu = none;
}

ruleset message_laws = (
  insert_attributes-push_some, insert_attributes-nil, insert_attributes-append,
  insert_sent_congestion, insert_sent_window, insert_sent_timeout, insert_sent_warning, over-none,
)

module _ (c : Configuration) (port : ℕ) (name : Str) where
  provider_data-new_v2 :
      (credentials : TaggedData CredentialsType)
      → provider_data (new_v2 c port credentials name) ≡ ok (layer_of c (non_default c.congestion))
  unfolding provider_data new_v2 push_window push_timeout apply_config_attributes
  provider_data-new_v2 credentials = simp message_laws

  provider_data-new_v1 :
      (cert : List ℕ) (warning : Str)
      → provider_data (upgrade (new_v1 c port cert name warning))
        ≡ ok (layer_of c (some c.congestion))
  unfolding provider_data new_v1 upgrade push_window push_timeout
  provider_data-new_v1 cert warning = simp message_laws

warning-new_v2 :
    (c : Configuration) (port : ℕ) (credentials : TaggedData CredentialsType) (name : Str)
    → find_tag ServerMessage2Attributes.warning_message (new_v2 c port credentials name).attributes
      ≡ none
unfolding new_v2 apply_config_attributes push_window push_timeout
warning-new_v2 c port credentials name = simp (find_tag-push_some, find_tag-nil) (ground arith)

warning-upgrade :
    (m : ServerMessageV1)
    → find_tag ServerMessage2Attributes.warning_message (upgrade m).attributes
      ≡ sent true string (non_empty m.warning)
unfolding upgrade push_window push_timeout
warning-upgrade m = simp (find_tag-push_some, find_tag-nil) (ground arith)

-- What the client holds once the server has made its message and sent it.
abbrev pub delivered :
    Compatibility
    → Configuration
    → ℕ
    → TaggedData CredentialsType
    → Str
    → Str
    → Option ServerMessageV2
delivered compat c port credentials name warning =
    elim (new_message compat c port credentials name warning) [
      | none ↦ none
      | some m ↦ elim (received m) [ ok m' ↦ some m' | err e ↦ none ]
    ]

abbrev pub layer : Option ServerMessageV2 → Option ConfigurationOptional
layer none = none
layer (some m) = elim (provider_data m) [ ok l ↦ some l | err e ↦ none ]

abbrev pub warning_in : Option ServerMessageV2 → Option Variant
warning_in none = none
warning_in (some m) = find_tag ServerMessage2Attributes.warning_message m.attributes

module _ (c : Configuration) (port : ℕ) (credentials : TaggedData CredentialsType) (cert : List ℕ)
    (valid : into_bytes credentials.payload ≡ some cert) (name warning : Str) where
  new_message_v2 :
      (compat : Compatibility)
      → supports compat cmsg_smsg_2 ≡ true
      → new_message compat c port credentials name warning
        ≡ some (v2 (new_v2 c port credentials name))
  unfolding new_message
  new_message_v2 compat h = rw (valid, new_message) (rw h)

  new_message_v1 :
      (compat : Compatibility)
      → supports compat cmsg_smsg_2 ≡ false
      → new_message compat c port credentials name warning
        ≡ some (v1 (new_v1 c port cert name warning))
  unfolding new_message
  new_message_v1 compat h = rw (valid, new_message) (rw h)

  -- Whatever version the agreed level calls for, the client takes the same settings from the
  -- message: the bandwidths with their directions exchanged, the round trip time, the window and
  -- the timeout unless they are zero, and the controller; a controller that is the default is sent
  -- by the first version only.
  pub delivered-layer :
      (compat : Compatibility)
      → layer (delivered compat c port credentials name warning)
        ≡ some (
            layer_of c
              (if supports compat cmsg_smsg_2 then non_default c.congestion else some c.congestion))
  unfolding received
  delivered-layer compat = elim (Bool-cases (supports compat cmsg_smsg_2)) [
    | inl h ↦
        rw (h, new_message_v2 compat h, layer) (rw (provider_data-new_v2 c port name credentials))
    | inr h ↦
        rw (h, new_message_v1 compat h, layer) (rw (provider_data-new_v1 c port name cert warning))
  ]

  -- The server's warning reaches a client that is sent the first version, and is dropped from the
  -- second version, whatever it says.
  pub delivered_warning :
      (compat : Compatibility)
      → warning_in (delivered compat c port credentials name warning)
        ≡ (if supports compat cmsg_smsg_2 then none else sent true string (non_empty warning))
  unfolding received new_v1
  delivered_warning compat = elim (Bool-cases (supports compat cmsg_smsg_2)) [
    | inl h ↦ rw (h, new_message_v2 compat h, warning_in) (warning-new_v2 c port credentials name)
    | inr h ↦
        rw (h, new_message_v1 compat h, warning_in)
          (warning-upgrade (new_v1 c port cert name warning))
  ]
