-- ===== src/Tls/KeyExchange.antt =====
-- handshake.go of pkg/tlsStack: the authenticated key exchange, over `WriteSerializableMessage` and
-- `ReadSerializedMessage` of doTls.go.
pub mod Frames
pub mod Agree
pub mod Accept
use mini_tls.Prelude.{
  ℕ, ◌+◌, not, ◌||◌, Option, none, some, List, ◌++◌, ◌==◌, if◌then◌else◌, ◌>>=◌, get_or,
}
use mini_tls.Tls.Crypto.{
  Crypto, compute_shared_secret, derive_write_keys, equal, server_signed, user_signed,
}
use mini_tls.Tls.Messages.{
  ServerValue, UserSignature, deserialize_server_value, deserialize_user_signature,
  deserialize_user_value, public_key_len, serialize_server_value, serialize_user_signature,
  serialize_user_value, signature_len,
}
use mini_tls.Tls.Transport.{Transport, read_full, write_full}

-- `VTLSConn`
pub record TlsConn (C : Type 0) : Type 0 where
  pub tcp_conn : C
  pub read_key : List ℕ
  pub write_key : List ℕ
  pub read_seq : ℕ
  pub write_seq : ℕ
  pub read_buf : List ℕ

-- How many bytes follow the first one, which says what message it is.
abbrev pub remaining_len : ℕ → Option ℕ
remaining_len kind =
    if kind == 1
    then some public_key_len
    else if (kind == 2) || (kind == 3)
    then some (public_key_len + public_key_len + signature_len)
    else none

module _ {C : Type 0} (t : Transport C) where
  -- `WriteSerializableMessage`, on what the message serialises to.
  pub write_message : C → Option (List ℕ) → Option C
  write_message c serialized = do bytes ← serialized; write_full t c bytes

  -- `ReadSerializedMessage`
  pub read_message : C → Option (C × List ℕ)
  read_message c = do
    kind ← read_full t c 1
    n ← remaining_len (get_or kind.1 0 0)
    body ← read_full t kind.0 n
    some (body.0, kind.1 ++ body.1)

  module _ (x : Crypto) where
    -- What both sides do at the end, with the key that they write with and the one they read with.
    abbrev keyed : TlsConn C → C → List ℕ → List ℕ → TlsConn C
    keyed conn c write_key read_key = record conn {
      tcp_conn = c;
      write_key = write_key;
      read_key = read_key;
      write_seq = 0;
      read_seq = 0;
    }

    -- The part of the user's side from the message of the server on.
    pub user_finish :
        x.Private → x.SignKey → x.VerifyKey → TlsConn C → C → ServerValue → Option (TlsConn C)
    user_finish priv sign_key server_key conn c m =
        let pub_key = x.public_key priv in
        let signature = x.sign sign_key (user_signed pub_key m.server_dh) in
        let rest = (do
          c' ← write_message c (
              serialize_user_signature
                (record { user_dh = pub_key; server_dh = m.server_dh; user_signature = signature }))
          secret ← compute_shared_secret x priv m.server_dh
          keys ← derive_write_keys x secret pub_key m.server_dh
          some (keyed conn c' keys.0 keys.1)) in
        if not (equal m.user_dh pub_key)
        then none
        else if not (x.verify server_key (server_signed m.server_dh m.user_dh) m.server_signature)
        then none
        else rest

    -- `HandleUserKeyExchange`, with the private key that `GenerateDHPair` makes.
    pub user_key_exchange : x.Private → x.SignKey → x.VerifyKey → TlsConn C → Option (TlsConn C)
    unfolding user_finish
    user_key_exchange priv sign_key server_key conn = do
      c ←
          write_message conn.tcp_conn
            (serialize_user_value (record { user_dh = x.public_key priv }))
      raw ← read_message c
      m ← deserialize_server_value raw.1
      user_finish priv sign_key server_key conn raw.0 m

    -- The part of the server's side from the signature of the user on.
    pub server_finish :
        x.Private → x.VerifyKey → TlsConn C → C → List ℕ → UserSignature → Option (TlsConn C)
    server_finish priv user_key conn c user_dh m =
        let pub_key = x.public_key priv in
        let rest = (do
          secret ← compute_shared_secret x priv user_dh
          keys ← derive_write_keys x secret user_dh pub_key
          some (keyed conn c keys.1 keys.0)) in
        if not (equal m.user_dh user_dh)
        then none
        else if not (equal m.server_dh pub_key)
        then none
        else if not (x.verify user_key (user_signed m.user_dh m.server_dh) m.user_signature)
        then none
        else rest

    -- `HandleServerKeyExchange`, with the private key that `GenerateDHPair` makes.
    pub server_key_exchange : x.Private → x.SignKey → x.VerifyKey → TlsConn C → Option (TlsConn C)
    unfolding server_finish
    server_key_exchange priv sign_key user_key conn = do
      first ← read_message conn.tcp_conn
      hello ← deserialize_user_value first.1
      let pub_key = x.public_key priv
      c ← write_message first.0 (
          serialize_server_value (record {
            server_dh = pub_key;
            user_dh = hello.user_dh;
            server_signature = x.sign sign_key (server_signed pub_key hello.user_dh);
          }))
      last ← read_message c
      m ← deserialize_user_signature last.1
      server_finish priv user_key conn last.0 hello.user_dh m
