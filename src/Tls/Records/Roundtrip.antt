-- ===== src/Tls/Records/Roundtrip.antt =====
-- What `VTLSWrite` puts on the connection, `VTLSRead` takes off it.
use mini_tls.Prelude.{
  ℕ, suc, ◌+◌, ◌%◌, ◌^◌, ◌≤◌, ◌<◌, ◌≡◌, refl, ap, ◌∙◌, subst, false, some, List, [], ◌++◌, arith,
  ltb, lt→ltb, length, take, drop, length-append, take-append, drop-append, put_uint32, uint32,
  uint32-put_uint32,
}
use mini_tls.Tls.Bytes.{get_nonce}
use mini_tls.Tls.Crypto.{Crypto, IsSound}
use mini_tls.Tls.KeyExchange.{TlsConn}
use mini_tls.Tls.Records.{next_seq, open_data, read_record, seal_data, vtls_read, vtls_write}
use mini_tls.Tls.Transport.{Delivers, Transport, read_full-Link, write_full, write_full-Link}

module _ (x : Crypto) where
  -- A write whose parts succeed.
  write_step :
      {C : Type 0} (t : Transport C) (c : TlsConn C) (plain sealed : List ℕ) (tcp tcp' : C)
      → x.aead_seal c.write_key (get_nonce c.write_seq) plain ≡ some sealed
      → length sealed < 2 ^ 32
      → write_full t c.tcp_conn (put_uint32 (length sealed)) ≡ some tcp
      → write_full t tcp sealed ≡ some tcp'
      → vtls_write t x c plain
        ≡ some (record c { tcp_conn = tcp'; write_seq = next_seq c.write_seq }, length plain)
  unfolding vtls_write seal_data
  write_step t c plain sealed tcp tcp' e h w w' =
      let size : length sealed % 2 ^ 32 ≡ length sealed = omega arith in
      rw (e, ap (λ k. write_full t c.tcp_conn (put_uint32 k)) size ∙ w, w')

  module _ {C : Type 0} (t : Transport C) (d : Delivers t) (v : IsSound x) where
    -- With text left over, a read gives the first part of it.
    pub vtls_read_buffered :
        (c : TlsConn C) (n : ℕ)
        → 0 < length c.read_buf
        → vtls_read t x c n ≡ some (record c { read_buf = drop n c.read_buf }, take n c.read_buf)
    unfolding vtls_read
    vtls_read_buffered c n h = rw (lt→ltb 0 (length c.read_buf) h) refl

    -- A write that is not too long puts one frame on the wire, and steps the counter.
    pub vtls_write-Link :
        (c : TlsConn C) (plain out rest : List ℕ)
        → length c.write_key ≡ 32
        → length plain + 16 < 2 ^ 32
        → d.Link c.tcp_conn out rest
        → length out + (length plain + 20) ≤ d.limit
        → (c' : TlsConn C) × (sealed : List ℕ) × (vtls_write t x c plain ≡ some (c', length plain))
          × d.Link c'.tcp_conn ((out ++ put_uint32 (length sealed)) ++ sealed) rest
          × (x.aead_open c.write_key (get_nonce c.write_seq) sealed ≡ some plain)
          × (length sealed ≡ length plain + 16)
          × (c' ≡ record c { tcp_conn = c'.tcp_conn; write_seq = next_seq c.write_seq })
    vtls_write-Link c plain out rest hk hp link room =
        let s = v.opens c.write_key (get_nonce c.write_seq) plain hk refl in
        let n = length s.0 in
        let w =
          write_full-Link t d 5 c.tcp_conn out rest (put_uint32 n) link (omega arith)
            (omega (arith, room)) in
        let w' =
          write_full-Link t d (suc n) w.0 (out ++ put_uint32 n) rest s.0 w.2 (omega arith)
            (omega (arith, room, s.2, length-append out (put_uint32 n))) in
        (
          record c { tcp_conn = w'.0; write_seq = next_seq c.write_seq },
          s.0,
          write_step t c plain s.0 w.0 w'.0 s.1 (omega (arith, s.2)) w.1 w'.1,
          w'.2,
          s.3,
          s.2,
          refl,
        )

    -- With nothing buffered, a read takes the frame of a record off the wire, gives the first part of
    -- its text and keeps the rest.
    pub vtls_read-Link :
        (c : TlsConn C) (n : ℕ) (plain sealed out rest : List ℕ)
        → c.read_buf ≡ []
        → length sealed ≡ length plain + 16
        → length sealed < 2 ^ 32
        → x.aead_open c.read_key (get_nonce c.read_seq) sealed ≡ some plain
        → d.Link c.tcp_conn out (put_uint32 (length sealed) ++ (sealed ++ rest))
        → (c' : TlsConn C) × (vtls_read t x c n ≡ some (c', take n plain))
          × (c'.read_buf ≡ drop n plain)
          × (c'.read_seq ≡ next_seq c.read_seq)
          × (c'.read_key ≡ c.read_key)
          × d.Link c'.tcp_conn out rest
    unfolding vtls_read read_record open_data
    vtls_read-Link c n plain sealed out rest nothing size short opens link =
        let m = length sealed in
        let four = put_uint32 m in
        let r =
          read_full-Link t d 5 4 c.tcp_conn out (four ++ (sealed ++ rest)) link (omega arith)
            (omega arith) in
        let told : uint32 four ≡ m = uint32-put_uint32 m (omega arith) in
        let r' =
          read_full-Link t d (suc m) m r.0 out (sealed ++ rest) r.2
            (omega (arith, length-append sealed rest)) (omega arith) in
        let enough : ltb m 16 ≡ false = ground arith in
        (
          record c { tcp_conn = r'.0; read_seq = next_seq c.read_seq; read_buf = drop n plain },
          rw (nothing, r.1, told, enough, r'.1, take-append m sealed rest refl, opens) refl,
          refl,
          refl,
          refl,
          subst (d.Link r'.0 out) (drop-append m sealed rest refl) r'.2,
        )
