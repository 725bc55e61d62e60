-- ===== src/Channel/Cert.antt =====
-- qcp/src/util/cert.rs: which kind of credentials is sent. The certificate and the raw public key are
-- bytes; a key that cannot be read is `none`.
use mathlib.Core.Path.{subst}
use qcp.Prelude.{
  ℕ, ◌≡◌, refl, true, Option, none, some, List, Result, ok, err, ensure, ◌>>◌, if◌then◌else◌,
  Bool-cases, inl, inr, ◌⊎◌,
}
use qcp.Prelude.Text.{Str}
use qcp.Protocol.Variant.{into_bytes}
use qcp.Protocol.DataTag.{TaggedData, tag, with_bytes}
use qcp.Protocol.Compat.{Compatibility, cmsg_smsg_2, supports}
use qcp.Protocol.Control.{CredentialsType, any, x509, raw_public_key, credentials_tag}

pub record Credentials : Type 0 where
  pub certificate : List ℕ
  pub as_raw_public_key : Option (List ℕ)
  pub hostname : Str

pub data CredentialsError : Type 0 where
  raw_public_key_unsupported bad_key unreachable : CredentialsError

automatic : Compatibility → CredentialsType
unfolding supports
automatic compat = if supports compat cmsg_smsg_2 then raw_public_key else x509

unfoldable pub type_tag_for : Compatibility → Option CredentialsType → CredentialsType
unfolding automatic
type_tag_for compat none = automatic compat
type_tag_for compat (some any) = automatic compat
type_tag_for compat (some other) = other

tagged_key : Option (List ℕ) → Result CredentialsError (TaggedData CredentialsType)
unfolding with_bytes
tagged_key none = err bad_key
tagged_key (some key) = ok (with_bytes raw_public_key key)

of_type :
    Credentials
    → Compatibility
    → CredentialsType
    → Result CredentialsError (TaggedData CredentialsType)
unfolding tagged_key supports
of_type c compat any = err unreachable
of_type c compat x509 = ok (with_bytes x509 c.certificate)
of_type c compat raw_public_key = do
  ensure (supports compat cmsg_smsg_2) raw_public_key_unsupported
  tagged_key c.as_raw_public_key

unfoldable pub to_tagged_data :
    Credentials
    → Compatibility
    → Option CredentialsType
    → Result CredentialsError (TaggedData CredentialsType)
unfolding type_tag_for of_type
to_tagged_data c compat configured = of_type c compat (type_tag_for compat configured)

-- What may be sent at a level: a certificate always, a raw public key from the third level on.
abbrev pub Fits : Compatibility → TaggedData CredentialsType → Type 0
Fits compat td =
    (tag td ≡ some x509) ⊎ ((tag td ≡ some raw_public_key) × (supports compat cmsg_smsg_2 ≡ true))

abbrev pub Sendable : Compatibility → TaggedData CredentialsType → Type 0
Sendable compat td = (bytes : List ℕ) × (into_bytes td.payload ≡ some bytes) × Fits compat td

tagged_key-Fits :
    (compat : Compatibility) (key : Option (List ℕ)) (td : TaggedData CredentialsType)
    → supports compat cmsg_smsg_2 ≡ true
    → tagged_key key ≡ ok td
    → Sendable compat td
unfolding tagged_key into_bytes with_bytes tag
tagged_key-Fits compat none td s h = cc
tagged_key-Fits compat (some key) td s h =
    let same : with_bytes raw_public_key key ≡ td = cc in
    subst (Sendable compat) same (key, refl, inr (refl, s))

of_type-Fits :
    (c : Credentials) (compat : Compatibility) (t : CredentialsType)
    (td : TaggedData CredentialsType)
    → of_type c compat t ≡ ok td
    → Sendable compat td
unfolding of_type into_bytes with_bytes tag
of_type-Fits c compat any td h = cc
of_type-Fits c compat x509 td h =
    let same : with_bytes x509 c.certificate ≡ td = cc in
    subst (Sendable compat) same (c.certificate, refl, inl refl)
of_type-Fits c compat raw_public_key td h = elim (Bool-cases (supports compat cmsg_smsg_2)) [
  | inl s ↦ tagged_key-Fits compat c.as_raw_public_key td s (rw s at h)
  | inr s ↦ let k = rw s at h in cc
]

-- Whatever kind is configured, credentials that are sent are bytes, and of a kind that the level
-- knows: a certificate, or a raw public key from the third level on.
pub to_tagged_data-Fits :
    (c : Credentials) (compat : Compatibility) (configured : Option CredentialsType)
    (td : TaggedData CredentialsType)
    → to_tagged_data c compat configured ≡ ok td
    → (bytes : List ℕ) × (into_bytes td.payload ≡ some bytes) × Fits compat td
unfolding to_tagged_data
to_tagged_data-Fits c compat configured td h =
    of_type-Fits c compat (type_tag_for compat configured) td h
