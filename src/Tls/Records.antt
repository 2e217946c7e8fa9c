-- ===== src/Tls/Records.antt =====
-- `VTLSWrite` and `VTLSRead` of tlsApi.go and `SealData` and `OpenData` of crypto.go in
-- pkg/tlsStack.
pub mod Roundtrip
pub mod Stream
pub mod Nonces
use mini_tls.Prelude.{
  ℕ, ◌+◌, ◌%◌, ◌^◌, Option, none, some, List, ltb, if◌then◌else◌, ◌>>=◌, length, take, drop,
  put_uint32, uint32,
}
use mini_tls.Tls.Bytes.{get_nonce}
use mini_tls.Tls.Crypto.{Crypto}
use mini_tls.Tls.KeyExchange.{TlsConn}
use mini_tls.Tls.Transport.{Transport, read_full, write_full}

-- `AESGCMTagLen`
abbrev pub tag_len : ℕ
tag_len = 16

-- A `uint64` counter.
abbrev pub next_seq : ℕ → ℕ
next_seq n = (n + 1) % 2 ^ 64

module _ {C : Type 0} (t : Transport C) (x : Crypto) where
  -- `SealData`
  pub seal_data : TlsConn C → List ℕ → Option (List ℕ)
  seal_data c plain = x.aead_seal c.write_key (get_nonce c.write_seq) plain

  -- `OpenData`
  pub open_data : TlsConn C → List ℕ → Option (List ℕ)
  open_data c sealed = x.aead_open c.read_key (get_nonce c.read_seq) sealed

  -- `VTLSWrite`
  pub vtls_write : TlsConn C → List ℕ → Option (TlsConn C × ℕ)
  vtls_write c bytes = do
    sealed ← seal_data c bytes
    tcp ← write_full t c.tcp_conn (put_uint32 (length sealed % 2 ^ 32))
    tcp' ← write_full t tcp sealed
    some (record c { tcp_conn = tcp'; write_seq = next_seq c.write_seq }, length bytes)

  -- The part of `VTLSRead` that takes a record from the connection, for a buffer of `n` bytes.
  pub read_record : TlsConn C → ℕ → Option (TlsConn C × List ℕ)
  read_record c n = do
    size ← read_full t c.tcp_conn 4
    let rest = (do
      sealed ← read_full t size.0 (uint32 size.1)
      plain ← open_data c sealed.1
      some (
        record c { tcp_conn = sealed.0; read_seq = next_seq c.read_seq; read_buf = drop n plain },
        take n plain,
      ))
    (if ltb (uint32 size.1) tag_len then none else rest)

  -- `VTLSRead` with a buffer of `n` bytes: the bytes that it puts there.
  pub vtls_read : TlsConn C → ℕ → Option (TlsConn C × List ℕ)
  vtls_read c n =
      let rest = read_record c n in
      if ltb 0 (length c.read_buf)
      then some (record c { read_buf = drop n c.read_buf }, take n c.read_buf)
      else rest
