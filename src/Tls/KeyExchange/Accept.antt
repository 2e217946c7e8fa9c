-- ===== src/Tls/KeyExchange/Accept.antt =====
-- What the two sides have checked when they accept.
use mini_tls.Prelude.{
  ℕ, ◌≡◌, sym, ap, ◌∙◌, subst, true, Option, some, List, >>=-eq-some, guard-eq-some,
}
use mini_tls.Tls.Crypto.{
  Crypto, compute_shared_secret, derive_write_keys, equal, equal→eq, server_signed, user_signed,
}
use mini_tls.Tls.KeyExchange.{
  TlsConn, read_message, server_finish, server_key_exchange, user_finish, user_key_exchange,
  write_message,
}
use mini_tls.Tls.Messages.{
  ServerValue, UserSignature, deserialize_server_value, deserialize_user_signature,
  deserialize_user_value, serialize_server_value, serialize_user_signature, serialize_user_value,
}
use mini_tls.Tls.Transport.{Transport}

module _ {C : Type 0} (t : Transport C) (x : Crypto) where
  -- The server's message names the user's public value, the signature over both public values
  -- verifies, and the keys follow from the secret shared with the server's.
  pub record UserAccepts (priv : x.Private) (vk : x.VerifyKey) (m : ServerValue) (conn : TlsConn C)
      : Type 0 where
    pub echoed : m.user_dh ≡ x.public_key priv
    pub verified :
        x.verify vk (server_signed m.server_dh (x.public_key priv)) m.server_signature ≡ true
    pub secret : List ℕ
    pub shared : compute_shared_secret x priv m.server_dh ≡ some secret
    pub derived :
        derive_write_keys x secret (x.public_key priv) m.server_dh
        ≡ some (conn.write_key, conn.read_key)
    pub fresh : (conn.write_seq ≡ 0) × (conn.read_seq ≡ 0)

  user_finish-UserAccepts :
      (priv : x.Private) (sk : x.SignKey) (vk : x.VerifyKey) (conn conn' : TlsConn C) (c : C)
      (m : ServerValue)
      → user_finish t x priv sk vk conn c m ≡ some conn'
      → UserAccepts priv vk m conn'
  unfolding user_finish
  user_finish-UserAccepts priv sk vk conn conn' c m e =
      let own = x.public_key priv in
      let echoed = guard-eq-some (equal m.user_dh own) _ e in
      let signed =
        guard-eq-some (x.verify vk (server_signed m.server_dh m.user_dh) m.server_signature) _
          echoed.1 in
      let signature : UserSignature = record {
        user_dh = own;
        server_dh = m.server_dh;
        user_signature = x.sign sk (user_signed own m.server_dh);
      } in
      let wrote = >>=-eq-some (write_message t c (serialize_user_signature signature)) _ signed.1 in
      let secret = >>=-eq-some (compute_shared_secret x priv m.server_dh) _ wrote.2 in
      let keys = >>=-eq-some (derive_write_keys x secret.0 own m.server_dh) _ secret.2 in
      let same : m.user_dh ≡ own = equal→eq m.user_dh own echoed.0 in
      let is : record conn {
        tcp_conn = wrote.0;
        write_key = keys.0.0;
        read_key = keys.0.1;
        write_seq = 0;
        read_seq = 0;
      }
          ≡ conn' =
        cc keys.2 in
      record {
        echoed = same;
        verified =
            subst (λ u. x.verify vk (server_signed m.server_dh u) m.server_signature ≡ true) same
              signed.0;
        secret = secret.0;
        shared = secret.1;
        derived =
            keys.1 ∙ ap {B = Option (List ℕ × List ℕ)} (λ k. some (k.write_key, k.read_key)) is;
        fresh = (ap (λ k. k.write_seq) (sym is), ap (λ k. k.read_seq) (sym is));
      }

  -- When the user's side returns without an error, it has read a message that names its own public
  -- value and whose signature, over both public values, verifies by the server's key; its keys follow
  -- from the secret that it shares with the public value in that message, and its counters are zero.
  pub user_key_exchange-UserAccepts :
      (priv : x.Private) (sk : x.SignKey) (vk : x.VerifyKey) (conn conn' : TlsConn C)
      → user_key_exchange t x priv sk vk conn ≡ some conn'
      → (m : ServerValue) × UserAccepts priv vk m conn'
  unfolding user_key_exchange
  user_key_exchange-UserAccepts priv sk vk conn conn' e =
      let hello = serialize_user_value (record { user_dh = x.public_key priv }) in
      let sent = >>=-eq-some (write_message t conn.tcp_conn hello) _ e in
      let raw = >>=-eq-some (read_message t sent.0) _ sent.2 in
      let m = >>=-eq-some (deserialize_server_value raw.0.1) _ raw.2 in
      (m.0, user_finish-UserAccepts priv sk vk conn conn' raw.0.0 m.0 m.2)

  -- The user's last message names both public values, the signature over them verifies, and the keys
  -- follow from the shared secret.
  pub record ServerAccepts (priv : x.Private) (vk : x.VerifyKey) (m : UserSignature)
      (conn : TlsConn C) : Type 0 where
    pub named : m.server_dh ≡ x.public_key priv
    pub verified : x.verify vk (user_signed m.user_dh (x.public_key priv)) m.user_signature ≡ true
    pub secret : List ℕ
    pub shared : compute_shared_secret x priv m.user_dh ≡ some secret
    pub derived :
        derive_write_keys x secret m.user_dh (x.public_key priv)
        ≡ some (conn.read_key, conn.write_key)
    pub fresh : (conn.write_seq ≡ 0) × (conn.read_seq ≡ 0)

  server_finish-ServerAccepts :
      (priv : x.Private) (vk : x.VerifyKey) (conn conn' : TlsConn C) (c : C) (user_dh : List ℕ)
      (m : UserSignature)
      → server_finish t x priv vk conn c user_dh m ≡ some conn'
      → (m.user_dh ≡ user_dh) × ServerAccepts priv vk m conn'
  unfolding server_finish
  server_finish-ServerAccepts priv vk conn conn' c user_dh m e =
      let own = x.public_key priv in
      let theirs = guard-eq-some (equal m.user_dh user_dh) _ e in
      let ours = guard-eq-some (equal m.server_dh own) _ theirs.1 in
      let signed =
        guard-eq-some (x.verify vk (user_signed m.user_dh m.server_dh) m.user_signature) _ ours.1 in
      let secret = >>=-eq-some (compute_shared_secret x priv user_dh) _ signed.1 in
      let keys = >>=-eq-some (derive_write_keys x secret.0 user_dh own) _ secret.2 in
      let same : m.user_dh ≡ user_dh = equal→eq m.user_dh user_dh theirs.0 in
      let named : m.server_dh ≡ own = equal→eq m.server_dh own ours.0 in
      let is : record conn {
        tcp_conn = c;
        write_key = keys.0.1;
        read_key = keys.0.0;
        write_seq = 0;
        read_seq = 0;
      }
          ≡ conn' =
        cc keys.2 in
      (
        same,
        record {
          named = named;
          verified =
              subst (λ u. x.verify vk (user_signed m.user_dh u) m.user_signature ≡ true) named
                signed.0;
          secret = secret.0;
          shared = ap (compute_shared_secret x priv) same ∙ secret.1;
          derived =
              ap (λ u. derive_write_keys x secret.0 u own) same
              ∙ keys.1
              ∙ ap {B = Option (List ℕ × List ℕ)} (λ k. some (k.read_key, k.write_key)) is;
          fresh = (ap (λ k. k.write_seq) (sym is), ap (λ k. k.read_seq) (sym is));
        },
      )

  -- When the server's side returns without an error, it has read a message that names its own public
  -- value and whose signature, over both public values, verifies by the user's key; its keys follow
  -- from the secret that it shares with the public value in that message, and its counters are zero.
  pub server_key_exchange-ServerAccepts :
      (priv : x.Private) (sk : x.SignKey) (vk : x.VerifyKey) (conn conn' : TlsConn C)
      → server_key_exchange t x priv sk vk conn ≡ some conn'
      → (m : UserSignature) × ServerAccepts priv vk m conn'
  unfolding server_key_exchange
  server_key_exchange-ServerAccepts priv sk vk conn conn' e =
      let own = x.public_key priv in
      let first = >>=-eq-some (read_message t conn.tcp_conn) _ e in
      let hello = >>=-eq-some (deserialize_user_value first.0.1) _ first.2 in
      let answer = serialize_server_value (record {
        server_dh = own;
        user_dh = hello.0.user_dh;
        server_signature = x.sign sk (server_signed own hello.0.user_dh);
      }) in
      let sent = >>=-eq-some (write_message t first.0.0 answer) _ hello.2 in
      let last = >>=-eq-some (read_message t sent.0) _ sent.2 in
      let m = >>=-eq-some (deserialize_user_signature last.0.1) _ last.2 in
      (m.0, (server_finish-ServerAccepts priv vk conn conn' last.0.0 hello.0.user_dh m.0 m.2).1)
