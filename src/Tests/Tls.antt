-- ===== src/Tests/Tls.antt =====
-- The TLS layer over fresh TCP connections, with toy cryptography.
use mini_tls.Prelude.{
  ◌↔◌, ℕ, ◌+◌, ◌-◌, ◌≤◌, ◌≡◌, refl, ap, ◌∙◌, some, List, [], ◌∷◌, ◌++◌, append-nil, arith, ◌==◌,
  ==_refl, length, get_or, take, drop, replicate, length-append, take-append, put_uint32,
}
use mini_tls.Tcp.CircleBuf.{max_win_size}
use mini_tls.Tcp.Handshake.{init_bufs}
use mini_tls.Tcp.Types.{TcpFields, flag_ack}
use mini_tls.Tests.Data.{small_entry}
use mini_tls.Tls.Bytes.{get_nonce}
use mini_tls.Tls.Crypto.{Crypto, IsSound}
use mini_tls.Tls.KeyExchange.{TlsConn, server_key_exchange, user_key_exchange}
use mini_tls.Tls.KeyExchange.Accept.{
  ServerAccepts, UserAccepts, server_key_exchange-ServerAccepts, user_key_exchange-UserAccepts,
}
use mini_tls.Tls.KeyExchange.Agree.{
  Done, first_message, key_exchange-Done, second_message, third_message,
}
use mini_tls.Tls.Messages.{
  ServerValue, UserSignature, UserValue, deserialize_server_value, deserialize_user_signature,
  deserialize_user_value, serialize_server_value, serialize_user_signature, serialize_user_value,
}
use mini_tls.Tls.Messages.Roundtrip.{messages_roundtrip}
use mini_tls.Tls.OverTcp.{Follow, Linked, TcpEnd, carried, tcp_transport}
use mini_tls.Tls.OverTcp.Exchange.{Secured, Starts, key_exchange-Secured, unkeyed}
use mini_tls.Tls.OverTcp.Law.{init_bufs-Linked, tcp_delivers}
use mini_tls.Tls.Records.{next_seq, vtls_write}
use mini_tls.Tls.Records.Nonces.{IsSealed, vtls_write_nonces}
use mini_tls.Tls.Records.Roundtrip.{vtls_write-Link}
use mini_tls.Tls.Records.Stream.{
  AreRecords, Incoming, read_texts, read_texts-Incoming, write_texts, write_texts-AreRecords,
}
use mini_tls.Tls.Transport.{Delivers, read_full-Link, read_loop}

abbrev header_at : ℕ → TcpFields
header_at seq = record {
  src_port = 80;
  dst_port = 40000;
  seq_num = seq;
  ack_num = 101;
  flags = flag_ack;
  window_size = max_win_size;
}

-- An established connection that expects the number 500.
abbrev end_with : List (TcpFields × List ℕ) → TcpEnd
end_with incoming = record { conn = init_bufs small_entry 500 max_win_size; incoming = incoming }

abbrev delivers : Delivers tcp_transport
delivers = tcp_delivers max_win_size

end_with-Linked :
    (incoming : List (TcpFields × List ℕ))
    → Follow 500 incoming
    → length (carried incoming) ≤ max_win_size
    → Linked max_win_size (end_with incoming) [] (carried incoming)
end_with-Linked incoming f fit =
    init_bufs-Linked small_entry 500 max_win_size incoming refl refl (omega arith) (omega arith) f
      fit

abbrev sixteen : List ℕ
sixteen = 0 ∷ 0 ∷ 0 ∷ 0 ∷ 0 ∷ 0 ∷ 0 ∷ 0 ∷ 0 ∷ 0 ∷ 0 ∷ 0 ∷ 0 ∷ 0 ∷ 0 ∷ 0 ∷ []

-- A private key is a number, which its public key and its signatures repeat; a sealed text has a
-- tag of zeros.
abbrev toy : Crypto
toy = record {
  Private = ℕ;
  SignKey = ℕ;
  VerifyKey = ℕ;
  public_key = λ a. replicate 32 a;
  ecdh = λ a peer. some ((a + get_or peer 0 0) ∷ []);
  sign = λ k m. replicate 64 k;
  verify = λ k m s. get_or s 0 0 == k;
  verify_key = λ k. k;
  sha256 = λ m. replicate 32 (length m);
  hkdf = λ z salt info n. some (replicate n (get_or z 0 0));
  aead_seal = λ key nonce plain. some (plain ++ sixteen);
  aead_open = λ key nonce sealed. some (take (length sealed - 16) sealed);
}

toy-IsSound : IsSound toy
unfolding replicate
toy-IsSound = record {
  public_key_size = λ a. refl;
  ecdh_agrees = λ a b. ((a + b) ∷ [], refl, ap (λ n. some (n ∷ [])) (omega arith), omega arith);
  sign_size = λ k m. refl;
  verifies = λ k m. ==_refl k;
  hkdf_size = λ z salt info. (replicate 64 (get_or z 0 0), refl, refl);
  opens = λ key nonce plain hk hn.
      let len : length (plain ++ sixteen) - 16 ≡ length plain =
        omega (arith, length-append plain sixteen) in
      (
        plain ++ sixteen,
        refl,
        length-append plain sixteen,
        ap some (
            ap (λ k. take k (plain ++ sixteen)) len
            ∙ take-append (length plain) plain sixteen refl),
      );
}

abbrev user_segments : List (TcpFields × List ℕ)
user_segments = (header_at 500, second_message toy 3 4 8) ∷ []

abbrev server_segments : List (TcpFields × List ℕ)
server_segments =
    (header_at 500, first_message toy 3) ∷ (header_at 533, third_message toy 3 4 7) ∷ []

abbrev user_end : TlsConn TcpEnd
user_end = unkeyed (end_with user_segments)

abbrev server_end : TlsConn TcpEnd
server_end = unkeyed (end_with server_segments)

user_end-Linked : Linked max_win_size user_end.tcp_conn [] (second_message toy 3 4 8 ++ [])
unfolding replicate
user_end-Linked = end_with-Linked user_segments (refl, omega arith, tt) (omega arith)

server_end-Linked :
    Linked max_win_size server_end.tcp_conn []
      (first_message toy 3 ++ (third_message toy 3 4 7 ++ []))
unfolding replicate
server_end-Linked =
    end_with-Linked server_segments (refl, omega arith, (refl, omega arith, tt)) (omega arith)

key_exchange-Done_example :
    (u s : TlsConn TcpEnd) × (k k' : List ℕ) × (user_key_exchange tcp_transport toy 3 7 8 user_end
      ≡ some u)
    × (server_key_exchange tcp_transport toy 4 8 7 server_end ≡ some s)
    × (length k ≡ 32)
    × (length k' ≡ 32)
    × Done toy delivers u k k' (([] ++ first_message toy 3) ++ third_message toy 3 4 7) []
    × Done toy delivers s k' k ([] ++ second_message toy 3 4 8) []
key_exchange-Done_example =
    key_exchange-Done tcp_transport tcp_transport delivers delivers toy toy-IsSound 3 4 7 8 user_end
      server_end [] [] [] [] user_end-Linked server_end-Linked (omega arith) (omega arith)

user_segments-Starts : Starts small_entry 500 user_segments
unfolding replicate
user_segments-Starts = record {
  is_open = refl;
  none_dropped = refl;
  own_word = omega arith;
  word = omega arith;
  follow = (refl, omega arith, tt);
}

server_segments-Starts : Starts small_entry 500 server_segments
unfolding replicate
server_segments-Starts = record {
  is_open = refl;
  none_dropped = refl;
  own_word = omega arith;
  word = omega arith;
  follow = (refl, omega arith, (refl, omega arith, tt));
}

key_exchange-Secured_example :
    (u s : TlsConn TcpEnd) × (k k' : List ℕ) × (user_key_exchange tcp_transport toy 3 7 8 user_end
      ≡ some u)
    × (server_key_exchange tcp_transport toy 4 8 7 server_end ≡ some s)
    × (length k ≡ 32)
    × (length k' ≡ 32)
    × Secured u k k' (first_message toy 3 ++ third_message toy 3 4 7)
    × Secured s k' k (second_message toy 3 4 8)
key_exchange-Secured_example =
    key_exchange-Secured toy toy-IsSound 3 4 7 8 small_entry small_entry 500 500 max_win_size
      max_win_size user_segments server_segments user_segments-Starts server_segments-Starts
      (append-nil (second_message toy 3 4 8))
      (ap (◌++◌ (first_message toy 3)) (append-nil (third_message toy 3 4 7)))

-- A keyed end before it writes.
abbrev writer : TlsConn TcpEnd
writer = record (unkeyed (end_with [])) { write_key = sixteen ++ sixteen }

write_texts-AreRecords_example :
    (c' : TlsConn TcpEnd) × (wire : List ℕ) × (write_texts toy tcp_transport writer
        ((5 ∷ 6 ∷ []) ∷ (7 ∷ []) ∷ [])
      ≡ some c')
    × AreRecords toy (sixteen ++ sixteen) 0 ((5 ∷ 6 ∷ []) ∷ (7 ∷ []) ∷ []) wire
    × Linked max_win_size c'.tcp_conn ([] ++ wire) []
write_texts-AreRecords_example =
    write_texts-AreRecords toy tcp_transport delivers toy-IsSound writer
      ((5 ∷ 6 ∷ []) ∷ (7 ∷ []) ∷ []) [] [] refl (omega arith, (omega arith, tt))
      (end_with-Linked [] tt (omega arith)) (omega arith)

-- One record, of the text 5 6, on its way.
abbrev record_of : List ℕ
record_of = 0 ∷ 0 ∷ 0 ∷ 18 ∷ 5 ∷ 6 ∷ sixteen

abbrev reader : TlsConn TcpEnd
reader = unkeyed (end_with ((header_at 500, record_of) ∷ []))

reader-Incoming : Incoming toy tcp_transport delivers toy-IsSound reader (5 ∷ 6 ∷ [])
reader-Incoming = record {
  texts = (5 ∷ 6 ∷ []) ∷ [];
  wire = record_of;
  out = [];
  rest = [];
  records = (5 ∷ 6 ∷ sixteen, [], refl, refl, omega arith, refl, refl);
  link = end_with-Linked ((header_at 500, record_of) ∷ []) (refl, omega arith, tt) (omega arith);
  is_text = refl;
}

read_texts-Incoming_example :
    (c' : TlsConn TcpEnd) × (out left : List ℕ) × (read_texts toy tcp_transport reader (1 ∷ 1 ∷ [])
      ≡ some (c', out))
    × (5 ∷ 6 ∷ [] ≡ out ++ left)
    × Incoming toy tcp_transport delivers toy-IsSound c' left
read_texts-Incoming_example =
    read_texts-Incoming toy tcp_transport delivers toy-IsSound reader (1 ∷ 1 ∷ []) (5 ∷ 6 ∷ [])
      reader-Incoming (omega arith, (omega arith, tt)) (omega arith)

-- Two texts that the keyed end writes.
abbrev first_write :
    (c' : TlsConn TcpEnd) × (sealed : List ℕ) × (vtls_write tcp_transport toy writer (5 ∷ 6 ∷ [])
      ≡ some (c', 2))
    × Linked max_win_size c'.tcp_conn (([] ++ put_uint32 (length sealed)) ++ sealed) []
    × (toy.aead_open writer.write_key (get_nonce 0) sealed ≡ some (5 ∷ 6 ∷ []))
    × (length sealed ≡ 18)
    × (c' ≡ record writer { tcp_conn = c'.tcp_conn; write_seq = next_seq 0 })
first_write =
    vtls_write-Link toy tcp_transport delivers toy-IsSound writer (5 ∷ 6 ∷ []) [] [] refl
      (omega arith) (end_with-Linked [] tt (omega arith)) (omega arith)

abbrev second_write :
    (c' : TlsConn TcpEnd) × (sealed : List ℕ) × (vtls_write tcp_transport toy first_write.0 (7 ∷ [])
      ≡ some (c', 1))
    × Linked max_win_size c'.tcp_conn
        (((([] ++ put_uint32 (length first_write.1)) ++ first_write.1)
            ++ put_uint32 (length sealed))
          ++ sealed)
        []
    × (toy.aead_open first_write.0.write_key (get_nonce first_write.0.write_seq) sealed
        ≡ some (7 ∷ []))
    × (length sealed ≡ 17)
    × (c' ≡ record (first_write.0) {
      tcp_conn = c'.tcp_conn;
      write_seq = next_seq first_write.0.write_seq;
    })
second_write =
    let out = ([] ++ put_uint32 (length first_write.1)) ++ first_write.1 in
    let key : length first_write.0.write_key ≡ 32 = ap (λ k. length k.write_key) first_write.6 in
    let room : length out + (1 + 20) ≤ max_win_size = omega (arith, first_write.5) in
    vtls_write-Link toy tcp_transport delivers toy-IsSound first_write.0 (7 ∷ []) out [] key
      (omega arith) first_write.3 room

none_between : write_texts toy tcp_transport first_write.0 [] ≡ some first_write.0
unfolding write_texts
none_between = refl

vtls_write_nonces_example :
    (nonce nonce' : List ℕ) × IsSealed tcp_transport toy writer.write_key nonce
      (5 ∷ 6 ∷ [])
      writer
      first_write.0
    × IsSealed tcp_transport toy writer.write_key nonce' (7 ∷ []) first_write.0 second_write.0
    × ¬ (nonce ≡ nonce')
vtls_write_nonces_example =
    vtls_write_nonces tcp_transport toy writer first_write.0 first_write.0 second_write.0
      (5 ∷ 6 ∷ []) (7 ∷ []) 2 1 [] first_write.2 none_between second_write.2 (omega arith)

read_full-Link_example :
    (c' : TcpEnd) × (read_loop tcp_transport 6 (end_with ((header_at 500, record_of) ∷ [])) 5
      ≡ some (c', take 5 (record_of ++ [])))
    × Linked max_win_size c' [] (drop 5 (record_of ++ []))
read_full-Link_example =
    read_full-Link tcp_transport delivers 6 5 (end_with ((header_at 500, record_of) ∷ [])) []
      (record_of ++ [])
      (end_with-Linked ((header_at 500, record_of) ∷ []) (refl, omega arith, tt) (omega arith))
      (omega arith) (omega arith)

abbrev honest_run :
    (u s : TlsConn TcpEnd) × (k k' : List ℕ) × (user_key_exchange tcp_transport toy 3 7 8 user_end
      ≡ some u)
    × (server_key_exchange tcp_transport toy 4 8 7 server_end ≡ some s)
    × (length k ≡ 32)
    × (length k' ≡ 32)
    × Done toy delivers u k k' (([] ++ first_message toy 3) ++ third_message toy 3 4 7) []
    × Done toy delivers s k' k ([] ++ second_message toy 3 4 8) []
honest_run =
    key_exchange-Done tcp_transport tcp_transport delivers delivers toy toy-IsSound 3 4 7 8 user_end
      server_end [] [] [] [] user_end-Linked server_end-Linked (omega arith) (omega arith)

user_key_exchange-UserAccepts_example :
    (m : ServerValue) × UserAccepts tcp_transport toy 3 8 m honest_run.0
user_key_exchange-UserAccepts_example =
    user_key_exchange-UserAccepts tcp_transport toy 3 7 8 user_end honest_run.0 honest_run.4

server_key_exchange-ServerAccepts_example :
    (m : UserSignature) × ServerAccepts tcp_transport toy 4 7 m honest_run.1
server_key_exchange-ServerAccepts_example =
    server_key_exchange-ServerAccepts tcp_transport toy 4 8 7 server_end honest_run.1 honest_run.5

abbrev server_message : ServerValue
server_message = record {
  server_dh = toy.public_key 4;
  user_dh = toy.public_key 3;
  server_signature = toy.sign 8 [];
}

abbrev user_message : UserSignature
user_message = record {
  user_dh = toy.public_key 3;
  server_dh = toy.public_key 4;
  user_signature = toy.sign 7 [];
}

abbrev user_hello : UserValue
user_hello = record { user_dh = toy.public_key 3 }

messages_roundtrip_example :
    let bytes = second_message toy 3 4 8 in
    ((serialize_user_value user_hello ≡ some bytes)
      ↔ (deserialize_user_value bytes ≡ some user_hello))
    × ((serialize_server_value server_message ≡ some bytes)
        ↔ (deserialize_server_value bytes ≡ some server_message))
    × ((serialize_user_signature user_message ≡ some bytes)
        ↔ (deserialize_user_signature bytes ≡ some user_message))
messages_roundtrip_example =
    messages_roundtrip user_hello server_message user_message (second_message toy 3 4 8)
