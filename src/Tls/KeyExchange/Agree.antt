-- ===== src/Tls/KeyExchange/Agree.antt =====
-- An honest run of the key exchange.
use mini_tls.Prelude.{
  ℕ, ◌+◌, ◌≤◌, ◌≡◌, refl, sym, ap, some, List, ◌∷◌, ◌++◌, arith, eq→==, length, length-append,
}
use mini_tls.Tls.Crypto.{
  Crypto, IsSound, compute_shared_secret, derive_write_keys, equal_refl, keys_agree, server_signed,
  user_signed,
}
use mini_tls.Tls.KeyExchange.{
  TlsConn, server_finish, server_key_exchange, user_finish, user_key_exchange,
}
use mini_tls.Tls.KeyExchange.Frames.{read_message-Link, write_message-Link}
use mini_tls.Tls.Messages.{
  joined, serialize_server_value, serialize_user_signature, serialize_user_value,
}
use mini_tls.Tls.Messages.Roundtrip.{deserialize-serialize}
use mini_tls.Tls.Transport.{Delivers, Transport}

-- The three messages of a run.
module _ (x : Crypto) where
  abbrev pub first_message : x.Private → List ℕ
  first_message a = 1 ∷ x.public_key a

  abbrev pub second_message : x.Private → x.Private → x.SignKey → List ℕ
  second_message a b server_key =
      2
      ∷ (x.public_key b
          ++ (x.public_key a
              ++ x.sign server_key (server_signed (x.public_key b) (x.public_key a))))

  abbrev pub third_message : x.Private → x.Private → x.SignKey → List ℕ
  third_message a b user_key =
      3
      ∷ (x.public_key a
          ++ (x.public_key b ++ x.sign user_key (user_signed (x.public_key a) (x.public_key b))))

  joined_sound :
      (v : IsSound x) (kind : ℕ) (a b : x.Private) (k : x.SignKey) (text : List ℕ)
      → joined kind (x.public_key a) (x.public_key b) (x.sign k text)
        ≡ some (kind ∷ (x.public_key a ++ (x.public_key b ++ x.sign k text)))
  joined_sound v kind a b k text =
      rw
        (
          eq→== (length (x.public_key a)) 32 (v.public_key_size a),
          eq→== (length (x.public_key b)) 32 (v.public_key_size b),
          eq→== (length (x.sign k text)) 64 (v.sign_size k text),
        )
        refl

  pub body_size :
      (v : IsSound x) (a b : x.Private) (k : x.SignKey) (text : List ℕ)
      → length (x.public_key a ++ (x.public_key b ++ x.sign k text)) ≡ 128
  body_size v a b k text = omega (
    arith,
    length-append (x.public_key a) (x.public_key b ++ x.sign k text),
    length-append (x.public_key b) (x.sign k text),
    v.public_key_size a,
    v.public_key_size b,
    v.sign_size k text,
  )

  -- The messages that the code makes are those.
  serialized :
      (v : IsSound x) (a b : x.Private) (uk sk : x.SignKey)
      → let ua = x.public_key a in
        let ub = x.public_key b in
        (serialize_user_value (record { user_dh = ua }) ≡ some (first_message a))
        × (serialize_server_value (record {
          server_dh = ub;
          user_dh = ua;
          server_signature = x.sign sk (server_signed ub ua);
        })
            ≡ some (second_message a b sk))
        × (serialize_user_signature (record {
          user_dh = ua;
          server_dh = ub;
          user_signature = x.sign uk (user_signed ua ub);
        })
            ≡ some (third_message a b uk))
  unfolding serialize_user_value serialize_server_value serialize_user_signature
  serialized v a b uk sk = (
    rw (eq→== (length (x.public_key a)) 32 (v.public_key_size a)) refl,
    joined_sound v 2 b a sk (server_signed (x.public_key b) (x.public_key a)),
    joined_sound v 3 a b uk (user_signed (x.public_key a) (x.public_key b)),
  )

  -- How a side ends: with these keys, its counters at zero, and this written and left to read.
  pub record Done {C : Type 0} {t : Transport C} (d : Delivers t) (conn : TlsConn C)
      (write_key read_key out rest : List ℕ) : Type 0 where
    pub writes_with : conn.write_key ≡ write_key
    pub reads_with : conn.read_key ≡ read_key
    pub write_seq : conn.write_seq ≡ 0
    pub read_seq : conn.read_seq ≡ 0
    pub link : d.Link conn.tcp_conn out rest

  module _ {C : Type 0} (t : Transport C) (d : Delivers t) (v : IsSound x) where
    -- The user's side of a run in which the server's message comes.
    pub user_run :
        (a b : x.Private) (uk sk : x.SignKey) (conn : TlsConn C) (out rest z k k' : List ℕ)
        → compute_shared_secret x a (x.public_key b) ≡ some z
        → derive_write_keys x z (x.public_key a) (x.public_key b) ≡ some (k, k')
        → d.Link conn.tcp_conn out (second_message a b sk ++ rest)
        → length out + 162 ≤ d.limit
        → (conn' : TlsConn C) × (user_key_exchange t x a uk (x.verify_key sk) conn ≡ some conn')
          × Done d conn' k k' ((out ++ first_message a) ++ third_message a b uk) rest
    unfolding user_key_exchange user_finish
    user_run a b uk sk conn out rest z k k' es ek link room =
        let ua = x.public_key a in
        let ub = x.public_key b in
        let sig = x.sign sk (server_signed ub ua) in
        let s = serialized v a b uk sk in
        let w =
          write_message-Link t d conn.tcp_conn out (second_message a b sk ++ rest) (first_message a)
            (serialize_user_value (record { user_dh = ua })) s.0 link
            (omega (arith, room, v.public_key_size a)) in
        let r =
          read_message-Link t d w.0 (out ++ first_message a) (ub ++ (ua ++ sig)) rest 2
            (ap some (sym (body_size v b a sk (server_signed ub ua)))) w.2 in
        let heard = deserialize-serialize.1 _ (second_message a b sk) s.1 in
        let w3 =
          write_message-Link t d r.0 (out ++ first_message a) rest (third_message a b uk) _ s.2 r.2
            (omega (
              arith,
              room,
              v.public_key_size a,
              length-append out (first_message a),
              body_size v a b uk (user_signed ua ub),
            )) in
        (
          record conn {
            tcp_conn = w3.0;
            write_key = k;
            read_key = k';
            write_seq = 0;
            read_seq = 0;
          },
          rw (w.1, r.1, heard, equal_refl ua, v.verifies sk (server_signed ub ua), w3.1, es, ek)
              refl,
          record {
            writes_with = refl;
            reads_with = refl;
            write_seq = refl;
            read_seq = refl;
            link = w3.2;
          },
        )

    -- The server's side of a run in which the user's two messages come.
    pub server_run :
        (a b : x.Private) (uk sk : x.SignKey) (conn : TlsConn C) (out rest z k k' : List ℕ)
        → compute_shared_secret x b (x.public_key a) ≡ some z
        → derive_write_keys x z (x.public_key a) (x.public_key b) ≡ some (k, k')
        → d.Link conn.tcp_conn out (first_message a ++ (third_message a b uk ++ rest))
        → length out + 129 ≤ d.limit
        → (conn' : TlsConn C) × (server_key_exchange t x b sk (x.verify_key uk) conn ≡ some conn')
          × Done d conn' k' k (out ++ second_message a b sk) rest
    unfolding server_key_exchange server_finish
    server_run a b uk sk conn out rest z k k' es ek link room =
        let ua = x.public_key a in
        let ub = x.public_key b in
        let sig = x.sign uk (user_signed ua ub) in
        let s = serialized v a b uk sk in
        let r =
          read_message-Link t d conn.tcp_conn out ua (third_message a b uk ++ rest) 1
            (ap some (sym (v.public_key_size a))) link in
        let heard = deserialize-serialize.0 _ (first_message a) s.0 in
        let w =
          write_message-Link t d r.0 out (third_message a b uk ++ rest) (second_message a b sk) _
            s.1 r.2 (omega (arith, room, body_size v b a sk (server_signed ub ua))) in
        let r3 =
          read_message-Link t d w.0 (out ++ second_message a b sk) (ua ++ (ub ++ sig)) rest 3
            (ap some (sym (body_size v a b uk (user_signed ua ub)))) w.2 in
        let heard3 = deserialize-serialize.2 _ (third_message a b uk) s.2 in
        (
          record conn {
            tcp_conn = r3.0;
            write_key = k';
            read_key = k;
            write_seq = 0;
            read_seq = 0;
          },
          rw
              (
                r.1,
                heard,
                w.1,
                r3.1,
                heard3,
                equal_refl ua,
                equal_refl ub,
                v.verifies uk (user_signed ua ub),
                es,
                ek,
              )
              refl,
          record {
            writes_with = refl;
            reads_with = refl;
            write_seq = refl;
            read_seq = refl;
            link = r3.2;
          },
        )

module _ {C C' : Type 0} (t : Transport C) (t' : Transport C') where
  -- When each side's connection delivers the messages of the other, with room for its own, both sides of
  -- an honest exchange return without an error. Each writes with the key that the other reads with, of the size that
  -- AES-256 wants, all counters are zero, and nothing is read beyond the messages.
  pub key_exchange-Done :
      (d : Delivers t) (d' : Delivers t') (x : Crypto) (v : IsSound x) (a b : x.Private)
      (uk sk : x.SignKey) (user : TlsConn C) (server : TlsConn C') (out rest out' rest' : List ℕ)
      → d.Link user.tcp_conn out (second_message x a b sk ++ rest)
      → d'.Link server.tcp_conn out' (first_message x a ++ (third_message x a b uk ++ rest'))
      → length out + 162 ≤ d.limit
      → length out' + 129 ≤ d'.limit
      → (u : TlsConn C) × (s : TlsConn C') × (k k' : List ℕ) × (user_key_exchange t x a uk
            (x.verify_key sk)
            user
          ≡ some u)
        × (server_key_exchange t' x b sk (x.verify_key uk) server ≡ some s)
        × (length k ≡ 32)
        × (length k' ≡ 32)
        × Done x d u k k' ((out ++ first_message x a) ++ third_message x a b uk) rest
        × Done x d' s k' k (out' ++ second_message x a b sk) rest'
  key_exchange-Done d d' x v a b uk sk user server out rest out' rest' link link' room room' =
      let keys = keys_agree x v a b in
      let k = keys.1 in
      let k' = keys.2 in
      let u = user_run x t d v a b uk sk user out rest keys.0 k k' keys.3 keys.5 link room in
      let s =
        server_run x t' d' v a b uk sk server out' rest' keys.0 k k' keys.4 keys.5 link' room' in
      (u.0, s.0, k, k', u.1, s.1, keys.6, keys.7, u.2, s.2)
