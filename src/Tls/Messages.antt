-- ===== src/Tls/Messages.antt =====
-- messages.go of pkg/tlsStack: the three messages of the key exchange, and their encoding.
pub mod Roundtrip
use mini_tls.Prelude.{
  ℕ, ◌+◌, not, ◌&&◌, Option, none, some, List, ◌∷◌, ◌++◌, ◌==◌, if◌then◌else◌, ◌>>=◌, length,
  get_or, take, drop,
}

-- `X25519PublicKeyLen`
abbrev pub public_key_len : ℕ
public_key_len = 32

-- `Ed25519SignatureLen`
abbrev pub signature_len : ℕ
signature_len = 64

-- `UserToServer_DHPublicValue_Message`
pub record UserValue : Type 0 where
  pub user_dh : List ℕ

-- `ServerToUser_DHPublicValue_Message`
pub record ServerValue : Type 0 where
  pub server_dh : List ℕ
  pub user_dh : List ℕ
  pub server_signature : List ℕ

-- `UserToServer_DHSignature_Message`
pub record UserSignature : Type 0 where
  pub user_dh : List ℕ
  pub server_dh : List ℕ
  pub user_signature : List ℕ

-- The three parts of the longer messages, in the order in which they are laid out.
abbrev pub joined : ℕ → List ℕ → List ℕ → List ℕ → Option (List ℕ)
joined kind a b s =
    if (length a == public_key_len) && (length b == public_key_len) && (length s == signature_len)
    then some (kind ∷ (a ++ (b ++ s)))
    else none

-- The parts of a message of the kind: its length is looked at first, and then its first byte.
abbrev pub parted : ℕ → List ℕ → Option (List ℕ × List ℕ × List ℕ)
parted kind bytes =
    if not (length bytes == 1 + public_key_len + public_key_len + signature_len)
    then none
    else if not (get_or bytes 0 0 == kind)
    then none
    else some (
      take public_key_len (drop 1 bytes),
      take public_key_len (drop 33 bytes),
      take signature_len (drop 65 bytes),
    )

-- `Serialize` of each message
unfoldable pub serialize_user_value : UserValue → Option (List ℕ)
serialize_user_value m = if length m.user_dh == public_key_len then some (1 ∷ m.user_dh) else none

unfoldable pub serialize_server_value : ServerValue → Option (List ℕ)
serialize_server_value m = joined 2 m.server_dh m.user_dh m.server_signature

unfoldable pub serialize_user_signature : UserSignature → Option (List ℕ)
serialize_user_signature m = joined 3 m.user_dh m.server_dh m.user_signature

-- `Deserialize` of each message
pub deserialize_user_value : List ℕ → Option UserValue
deserialize_user_value bytes =
    if not (length bytes == 1 + public_key_len)
    then none
    else if not (get_or bytes 0 0 == 1)
    then none
    else some (record { user_dh = take public_key_len (drop 1 bytes) })

pub deserialize_server_value : List ℕ → Option ServerValue
deserialize_server_value bytes = do
  parts ← parted 2 bytes
  some (record { server_dh = parts.0; user_dh = parts.1; server_signature = parts.2 })

pub deserialize_user_signature : List ℕ → Option UserSignature
deserialize_user_signature bytes = do
  parts ← parted 3 bytes
  some (record { user_dh = parts.0; server_dh = parts.1; user_signature = parts.2 })
