-- ===== src/Channel/Sending.antt =====
-- What the server reads of the message that a client sends.
use qcp.Prelude.{
  ◌≡◌, refl, Bool, true, false, Option, none, some, if◌then◌else◌, Result, ok, err, ensure,
  >>=-eq-ok, ap, sym, ◌∙◌,
}
use qcp.Protocol.Compat.{Compatibility, cmsg_smsg_2, supports}
use qcp.Protocol.Control.{CredentialsType, ConnectionType, Direction, ClientMessage2Attributes}
use qcp.Protocol.Control.ClientMsg.{
  ClientMessage, new_message, set_direction, received, rx_bw, some_nonzero,
}
use qcp.Protocol.Control.ClientMsg.Upgrade.{asked, request_for, delivered, search, delivered_lem}
use qcp.Config.{ConfigurationOptional}
use qcp.Channel.Cert.{Credentials, CredentialsError, to_tagged_data, to_tagged_data-Fits}
use qcp.Channel.{
  new_reno_unsupported, sent_message, with_credentials, controller_known, client_send_message,
}

with_credentials-eq-ok :
    {A : Type 0} (r : Result CredentialsError A) (a : A) → with_credentials r ≡ ok a → r ≡ ok a
unfolding with_credentials
with_credentials-eq-ok (ok b) a h = cc
with_credentials-eq-ok (err e) a h = cc

sent_message-received :
    (o : Option ClientMessage) (direction : Direction) (msg : ClientMessage)
    → sent_message o direction ≡ ok msg
    → received msg ≡ elim o [ none ↦ none | some m ↦ received (set_direction direction m) ]
unfolding sent_message
sent_message-received none direction msg h = cc
sent_message-received (some m) direction msg h =
    let same : set_direction direction m ≡ msg = cc in ap received (sym same)

ensure-eq-ok : (b : Bool) (u : Unit {0}) → ensure b new_reno_unsupported ≡ ok u → b ≡ true
ensure-eq-ok true u h = refl
ensure-eq-ok false u h = cc

-- If the client sends a message, the server finds in it the request that the client's configuration
-- stands for, under every tag, with the bandwidth to the server as the version of the message has
-- it, and the controller is one that the agreed level knows.
pub client_send_message-received :
    (compat : Compatibility) (mine : Credentials) (kind : ConnectionType) (remote_config : Bool)
    (tls_auth_type : Option CredentialsType) (c : ConfigurationOptional) (direction : Direction)
    (msg : ClientMessage) (t : ClientMessage2Attributes)
    → client_send_message compat mine kind remote_config tls_auth_type c direction ≡ ok msg
    → (controller_known compat c.congestion ≡ true)
      × (search t (received msg)
          ≡ asked
              (request_for
                (if supports compat cmsg_smsg_2 then rx_bw c else some_nonzero c.tx)
                remote_config
                c
                direction)
              t)
unfolding client_send_message
client_send_message-received compat mine kind remote_config tls_auth_type c direction msg t h =
    let (u, known, h1) =
      >>=-eq-ok (ensure (controller_known compat c.congestion) new_reno_unsupported) _ h in
    let (tagged, made, h2) =
      >>=-eq-ok (with_credentials (to_tagged_data mine compat tls_auth_type)) _ h1 in
    let (cert, valid, fits) =
      to_tagged_data-Fits mine compat tls_auth_type tagged
        (with_credentials-eq-ok (to_tagged_data mine compat tls_auth_type) tagged made) in
    let same : received msg ≡ delivered compat tagged kind remote_config c direction =
      sent_message-received (new_message compat tagged kind remote_config c) direction msg h2 in
    (
      ensure-eq-ok (controller_known compat c.congestion) u known,
      ap (search t) same ∙ delivered_lem tagged cert valid kind remote_config c direction compat t,
    )
