-- ===== src/Channel/Outcome.antt =====
-- How the two sides of the control channel end.
use mathlib.Core.Path.{subst}
use qcp.Prelude.{
  ℕ, ◌≡◌, refl, false, Option, none, some, List, [], ◌∷◌, get_or, ok, err, is_ok, All, All-map, sym,
  ap, ◌∙◌, if◌then◌else◌, Option-cases, Result-cases, inl, inr, ◌⊎◌,
}
use qcp.Prelude.Text.{Str}
use qcp.Protocol.Variant.{into_bytes}
use qcp.Protocol.DataTag.{TaggedData, find_tag}
use qcp.Protocol.Compat.{Compatibility, supports, cmsg_smsg_2}
use qcp.Protocol.Control.{
  CredentialsType, direction_from, server_mode, ClientMessage2Attributes, client_attribute2_tag,
}
use qcp.Protocol.Control.ClientMsg as Request
use qcp.Protocol.Control.ClientMsg.{ClientMessage, ClientMessageV2}
use qcp.Protocol.Control.ServerMsg as Reply
use qcp.Protocol.Control.ServerMsg.{
  ServerMessage, ServerMessageV2, ServerFailure, failure, provider_data, non_default,
}
use qcp.Protocol.Control.ServerMsg.Layers.{layer, layer_of, delivered, delivered-layer}
use qcp.Protocol.Control.ServerMsg.Agreement.{Agree, Compatible, client_view, delivered-Agree}
use qcp.Config.{Configuration, ConfigurationOptional}
use qcp.Config.Manager.{Manager, merge, with_system_default}
use qcp.Config.Manager.Reading.{IsReadable, get_complete}
use qcp.Transport.{combine_bandwidth_configurations}
use qcp.Channel.Cert.{Credentials, to_tagged_data, to_tagged_data-Fits}
use qcp.Channel.{
  ChannelError, Answer, Server, server_message, server_send_message, open_endpoint, process_message,
  run_server_inner, assembled, extracted, merged, client_finish, refuse, give_up,
}

-- A message that ends the client's side with an error.
abbrev Refused : ServerMessage → Type 0
Refused m = (manager : Manager) → is_ok (client_finish manager m) ≡ false

-- One message for clients of a server that uses the configuration `c`.
abbrev Accepted : Configuration → List ServerMessage → Type 0
Accepted c sent =
    (m : ServerMessage) × (sent ≡ m ∷ [])
    × ((mine : ConfigurationOptional)
        → Compatible mine.congestion c.congestion
        → IsReadable mine.port
        → IsReadable mine.remote_port
        → (client : Configuration) × (client_finish (some mine) m ≡ ok client)
          × Agree mine c client)

-- The two ways in which a server's side ends, each with what the client makes of it.
abbrev Settled : Answer → Type 0
Settled a =
    ((e : ChannelError) × (a.result ≡ err e) × All Refused a.sent)
    ⊎ ((c : Configuration) × (a.result ≡ ok c) × Accepted c a.sent)

failure-Refused : (f : ServerFailure) → Refused (failure f)
unfolding client_finish Reply.received
failure-Refused f manager = refl

refuse-Settled : (f : ServerFailure) (e : ChannelError) → Settled (refuse f e)
refuse-Settled f e = inl (e, refl, (failure-Refused f, tt))

give_up-Settled : (e : ChannelError) → Settled (give_up e)
give_up-Settled e = inl (e, refl, tt)

-- A client whose own ports can be read finishes with its view of the layer that the message delivers.
finish_view :
    (mine l : ConfigurationOptional) (m : ServerMessage)
    → layer (elim (Reply.received m) [ ok m' ↦ some m' | err e ↦ none ]) ≡ some l
    → IsReadable (merge mine l).port
    → IsReadable (merge mine l).remote_port
    → client_finish (some mine) m ≡ ok (with_system_default (merge mine l))
unfolding client_finish merged assembled extracted
finish_view mine l m h port remote = elim (Result-cases (Reply.received m)) [
  | inl (m2, e) ↦ elim (Result-cases (provider_data m2)) [
    | inl (l', e2) ↦
        let k = rw (e, layer, e2) at h in
        let same : l' ≡ l = cc in
        rw (e, client_finish, merged, e2, same, get_complete (merge mine l) port remote) refl
    | inr (t, e2) ↦ let k = rw (e, layer, e2) at h in cc
  ]
  | inr (f, e) ↦ let k = rw e at h in cc
]

module _ (server : Server) (compat : Compatibility) where
  server_message-Settled :
      (config : Configuration) (port : ℕ) (tagged : TaggedData CredentialsType) (cert : List ℕ)
      (name warning : Str)
      → into_bytes tagged.payload ≡ some cert
      → Settled (server_message config (Reply.new_message compat config port tagged name warning))
  unfolding server_message merge with_system_default supports
  server_message-Settled config port tagged cert name warning valid =
      elim (Option-cases (Reply.new_message compat config port tagged name warning)) [
        | inl e ↦ rw (e, server_message) (give_up-Settled ChannelError.not_bytes)
        | inr (m, e) ↦
            rw (e, server_message)
              (inr (
                config,
                refl,
                (
                  m,
                  refl,
                  λ mine fits readable remote.
                      let (client, view, agree) =
                        delivered-Agree config port tagged cert valid name warning compat mine
                          fits in
                      let known =
                        delivered-layer config port tagged cert valid name warning compat in
                      let l = layer_of config (
                        if supports compat cmsg_smsg_2
                        then non_default config.congestion
                        else some config.congestion) in
                      let same : some (with_system_default (merge mine l)) ≡ some client =
                        sym (ap (client_view mine) known) ∙ view in
                      let one : client ≡ with_system_default (merge mine l) = cc in
                      (
                        with_system_default (merge mine l),
                        finish_view mine l m (rw (delivered, e) at known) readable remote,
                        subst (λ x. Agree mine config x) one agree,
                      ),
                ),
              ))
      ]

  server_send_message-Settled :
      (port : ℕ) (theirs : Credentials) (config : Configuration) (warning : Str)
      → Settled (server_send_message server compat port theirs config warning)
  unfolding server_send_message
  server_send_message-Settled port theirs config warning =
      elim (Result-cases (to_tagged_data theirs compat (some server.tls_auth_type))) [
        | inr (x, e) ↦ rw (e, server_send_message) (give_up-Settled (ChannelError.credentials x))
        | inl (tagged, e) ↦
            let (cert, valid, fits) =
              to_tagged_data-Fits theirs compat (some server.tls_auth_type) tagged e in
            rw (e, server_send_message)
              (server_message-Settled config port tagged cert theirs.hostname warning valid)
      ]

  open_endpoint-Settled :
      (message : ClientMessageV2) (config : Configuration) (theirs : Option Credentials)
      → Settled (open_endpoint server compat message config theirs)
  unfolding open_endpoint
  open_endpoint-Settled message config none = give_up-Settled ChannelError.no_credentials
  open_endpoint-Settled message config (some theirs) =
      elim (Result-cases (
        server.create_endpoint theirs message config
          (server_mode (
            direction_from
              (find_tag ClientMessage2Attributes.direction_of_travel message.attributes)))
          compat)) [
            | inr (x, e) ↦
                rw (e, open_endpoint)
                  (refuse-Settled (ServerFailure.endpoint_failed x) (ChannelError.endpoint x))
            | inl ((port, warning), e) ↦
                rw (e, open_endpoint)
                  (server_send_message-Settled port theirs config (get_or warning []))
          ]

  process_message-Settled :
      (manager : Manager) (message : Option ClientMessageV2)
      → Settled (process_message server compat manager message)
  unfolding process_message
  process_message-Settled manager none =
      refuse-Settled ServerFailure.malformed ChannelError.malformed_message
  process_message-Settled manager (some message) =
      elim (Result-cases (combine_bandwidth_configurations server.reread manager message)) [
        | inr (x, e) ↦
            rw (e, process_message)
              (refuse-Settled (ServerFailure.negotiation_failed (server.describe x))
                (ChannelError.negotiation x))
        | inl (config, e) ↦
            rw (e, process_message) (open_endpoint-Settled message config server.generate)
      ]

  run_server_inner-Settled :
      (manager : Manager) (incoming : Option ClientMessage)
      → Settled (run_server_inner server compat manager incoming)
  unfolding run_server_inner
  run_server_inner-Settled manager none =
      refuse-Settled ServerFailure.malformed ChannelError.malformed_message
  run_server_inner-Settled manager (some m) = process_message-Settled manager (Request.received m)

  -- If the server's side succeeds, it has sent exactly one message. Every client whose own controller
  -- is unset or the server's, and whose own port ranges are absent or valid, assembles a configuration
  -- from it: with the server's bandwidths, their directions exchanged, and with the server's round
  -- trip time and controller. Its window and its timeout are the server's unless these are zero, where
  -- it keeps its own or the default.
  pub run_server_inner-Agree :
      (manager : Manager) (incoming : Option ClientMessage) (c : Configuration)
      (mine : ConfigurationOptional)
      → (run_server_inner server compat manager incoming).result ≡ ok c
      → Compatible mine.congestion c.congestion
      → IsReadable mine.port
      → IsReadable mine.remote_port
      → (m : ServerMessage) × (client : Configuration) × ((run_server_inner server compat manager
            incoming).sent
          ≡ m ∷ [])
        × (client_finish (some mine) m ≡ ok client)
        × Agree mine c client
  run_server_inner-Agree manager incoming c mine h fits readable remote =
      elim (run_server_inner-Settled manager incoming) [
        | inl (e, failed, _) ↦ cc
        | inr (c', good, (m, one, all)) ↦
            let same : c ≡ c' = cc in
            let (client, done, agree) =
              all mine (subst (λ x. Compatible mine.congestion x.congestion) same fits) readable
                remote in
            (m, client, one, done, subst (λ x. Agree mine x client) (sym same) agree)
      ]

  -- If the server's side fails, whatever it has sent ends the client's side with an error.
  pub run_server_inner_failure :
      (manager : Manager) (incoming : Option ClientMessage) (e : ChannelError) (client : Manager)
      → (run_server_inner server compat manager incoming).result ≡ err e
      → All
          (λ m. is_ok (client_finish client m) ≡ false)
          (run_server_inner server compat manager incoming).sent
  run_server_inner_failure manager incoming e client h =
      elim (run_server_inner-Settled manager incoming) [
        | inl (e', failed, all) ↦
            All-map Refused (λ m. is_ok (client_finish client m) ≡ false) (λ m r. r client)
              (run_server_inner server compat manager incoming).sent all
        | inr (c', good, _) ↦ cc
      ]
