-- ===== src/Tls/Records/Nonces.antt =====
-- The nonces of the records that one side writes.
use mini_tls.Prelude.{
  ℕ, ◌+◌, ◌%◌, ◌^◌, ◌<◌, ◌≡◌, sym, ap, ◌∙◌, subst, Option, some, List, [], ◌∷◌, arith, >>=-eq-some,
  length, put_uint32,
}
use mini_tls.Tls.Bytes.{get_nonce, get_nonce_injective}
use mini_tls.Tls.Crypto.{Crypto}
use mini_tls.Tls.KeyExchange.{TlsConn}
use mini_tls.Tls.Records.{next_seq, seal_data, vtls_write}
use mini_tls.Tls.Records.Stream.{write_texts}
use mini_tls.Tls.Transport.{Transport, write_full}

module _ {C : Type 0} (t : Transport C) (x : Crypto) where
  -- The call has put the text on the connection as a record, sealed under the key and the nonce.
  pub record IsSealed (key nonce plain : List ℕ) (c c' : TlsConn C) : Type 0 where
    pub sealed : List ℕ
    pub by_nonce : x.aead_seal key nonce plain ≡ some sealed
    pub between : C
    pub size_sent : write_full t c.tcp_conn (put_uint32 (length sealed % 2 ^ 32)) ≡ some between
    pub sent : write_full t between sealed ≡ some c'.tcp_conn

  record Step (plain : List ℕ) (c c' : TlsConn C) : Type 0 where
    is_sealed : IsSealed c.write_key (get_nonce c.write_seq) plain c c'
    key : c'.write_key ≡ c.write_key
    counter : c'.write_seq ≡ next_seq c.write_seq

  vtls_write-Step :
      (c c' : TlsConn C) (plain : List ℕ) (n : ℕ)
      → vtls_write t x c plain ≡ some (c', n)
      → Step plain c c'
  unfolding vtls_write seal_data
  vtls_write-Step c c' plain n e =
      let s = >>=-eq-some (x.aead_seal c.write_key (get_nonce c.write_seq) plain) _ e in
      let size = put_uint32 (length s.0 % 2 ^ 32) in
      let first = >>=-eq-some (write_full t c.tcp_conn size) _ s.2 in
      let second = >>=-eq-some (write_full t first.0 s.0) _ first.2 in
      let is : record c { tcp_conn = second.0; write_seq = next_seq c.write_seq } ≡ c' =
        cc second.2 in
      record {
        is_sealed = record {
          sealed = s.0;
          by_nonce = s.1;
          between = first.0;
          size_sent = first.1;
          sent = second.1 ∙ ap {B = Option C} (λ k. some k.tcp_conn) is;
        };
        key = ap (λ k. k.write_key) (sym is);
        counter = ap (λ k. k.write_seq) (sym is);
      }

  -- The key and the counter after calls of `VTLSWrite`.
  write_texts-counter :
      (c c' : TlsConn C) (ps : List (List ℕ))
      → write_texts x t c ps ≡ some c'
      → c.write_seq + length ps < 2 ^ 64
      → (c'.write_key ≡ c.write_key) × (c'.write_seq ≡ c.write_seq + length ps)
  unfolding write_texts
  write_texts-counter c c' [] e h =
      let is : c ≡ c' = cc e in
      (ap (λ k. k.write_key) (sym is), ap (λ k. k.write_seq) (sym is) ∙ omega arith)
  write_texts-counter c c' (p ∷ ps) e h =
      let first = >>=-eq-some (vtls_write t x c p) _ e in
      let step = vtls_write-Step c first.0.0 p first.0.1 first.1 in
      let up : first.0.0.write_seq ≡ c.write_seq + 1 = omega (arith, step.counter, h) in
      let rest = write_texts-counter first.0.0 c' ps first.2 (omega (arith, up, h)) in
      (rest.0 ∙ step.key, omega (arith, rest.1, up))

  -- As long as the counter stays below 2 ^ 64, a record that `VTLSWrite` seals and one that it seals
  -- after any further calls are sealed under the same key, and under two different nonces.
  pub vtls_write_nonces :
      (c c1 c2 c3 : TlsConn C) (p q : List ℕ) (n m : ℕ) (ps : List (List ℕ))
      → vtls_write t x c p ≡ some (c1, n)
      → write_texts x t c1 ps ≡ some c2
      → vtls_write t x c2 q ≡ some (c3, m)
      → c.write_seq + length ps + 1 < 2 ^ 64
      → (nonce nonce' : List ℕ) × IsSealed c.write_key nonce p c c1
        × IsSealed c.write_key nonce' q c2 c3
        × ¬ (nonce ≡ nonce')
  vtls_write_nonces c c1 c2 c3 p q n m ps e between e' h =
      let first = vtls_write-Step c c1 p n e in
      let up : c1.write_seq ≡ c.write_seq + 1 = omega (arith, first.counter, h) in
      let on = write_texts-counter c1 c2 ps between (omega (arith, up, h)) in
      let later = vtls_write-Step c2 c3 q m e' in
      (
        get_nonce c.write_seq,
        get_nonce c2.write_seq,
        first.is_sealed,
        subst (λ k. IsSealed k (get_nonce c2.write_seq) q c2 c3) (on.0 ∙ first.key) later.is_sealed,
        λ same.
            let eq =
              get_nonce_injective c.write_seq c2.write_seq (omega (arith, h))
                (omega (arith, on.1, up, h)) same in
            absurd (omega (arith, eq, on.1, up)),
      )
