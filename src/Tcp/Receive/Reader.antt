-- ===== src/Tcp/Receive/Reader.antt =====
-- What the application reads is the stream: `VRead` after any deliveries.
use mini_tls.Prelude.{
  ℕ, ◌≤◌, min, ◌≡◌, refl, sym, ap, ap₂, ◌∙◌, ◌≢◌, false, Option, some, List, arith, ne→==, length,
  take, drop, blit, add32,
}
use mini_tls.Tcp.CircleBuf.{advance_base, read_from_buf}
use mini_tls.Tcp.CircleBuf.Inv.{advance_base-IsValid, advance_base_lem, region}
use mini_tls.Tcp.CircleBuf.Queue.{contents-advance_base, region-eq-take}
use mini_tls.Tcp.CircleBuf.Read.{read_from_buf_lem}
use mini_tls.Tcp.Receive.{ReadResult, is_closing, vread}
use mini_tls.Tcp.Receive.Ring.{Received}
use mini_tls.Tcp.Stream.{bytes_of, drop-bytes_of, take-bytes_of}
use mini_tls.Tcp.Types.{Conn, RecvBuf}

module _ (S : ℕ → ℕ) where
  region-Received :
      (r : RecvBuf) (n : ℕ)
      → Received S r
      → n ≤ r.c_buf.curr_size
      → region r.c_buf (add32 r.lbr 1) n ≡ bytes_of S (add32 r.lbr 1) n
  region-Received r n v h =
      ap (λ s. region r.c_buf s n) (sym v.base)
      ∙ region-eq-take n v.valid h
      ∙ ap (take n) v.held
      ∙ take-bytes_of S r.c_buf.base_seq n r.c_buf.curr_size h
      ∙ ap (λ s. bytes_of S s n) v.base

  advanced-Received :
      (r : RecvBuf) (n : ℕ)
      → Received S r
      → n ≤ r.c_buf.curr_size
      → Received S (record r { c_buf = advance_base r.c_buf n; lbr = add32 r.lbr n })
  advanced-Received r n v h =
      let after = advance_base_lem n v.valid h in
      let cb = advance_base r.c_buf n in
      record {
        valid = advance_base-IsValid n v.valid;
        lbr_word = omega arith;
        base = omega (arith, after.1, v.base);
        held =
            contents-advance_base n v.valid h
            ∙ ap (drop n) v.held
            ∙ drop-bytes_of S r.c_buf.base_seq n r.c_buf.curr_size v.valid.base_word h
            ∙ sym (ap₂ (bytes_of S) after.1 after.0);
        early = v.early;
        next = omega (arith, after.0, after.1, v.next);
      }

  -- With unread bytes, `VRead` fills the buffer from its start with the next bytes of the stream, as
  -- many as both sides allow, returns their number, and steps over them.
  pub vread-Received :
      (c : Conn) (dest : List ℕ)
      → Received S c.recv_buf
      → is_closing c.entry.state ≡ false
      → c.recv_buf.c_buf.curr_size ≢ 0
      → let n = min (length dest) c.recv_buf.c_buf.curr_size in
        (c' : Conn) × (vread c dest
          ≡ some (ReadResult.got n (blit dest 0 (bytes_of S (add32 c.recv_buf.lbr 1) n)) c'))
        × Received S c'.recv_buf
        × (c'.recv_buf.lbr ≡ add32 c.recv_buf.lbr n)
        × (c'.entry ≡ c.entry)
        × (c'.recv_buf.fin ≡ c.recv_buf.fin)
  unfolding vread
  vread-Received c dest v open_state some_bytes =
      let r = c.recv_buf in
      let n = min (length dest) r.c_buf.curr_size in
      let read = read_from_buf_lem (add32 r.lbr 1) n dest v.valid (omega arith) in
      let cb = advance_base r.c_buf n in
      let e : min n (length dest) ≡ n = omega arith in
      let got_bytes : read_from_buf r.c_buf (add32 r.lbr 1) dest n
          ≡ some (blit dest 0 (bytes_of S (add32 r.lbr 1) n), n) =
        read
        ∙ ap {B = Option (List ℕ × ℕ)}
            (λ m. some (blit dest 0 (region r.c_buf (add32 r.lbr 1) m), m)) e
        ∙ ap {B = Option (List ℕ × ℕ)} (λ b. some (blit dest 0 b, n))
            (region-Received r n v (omega arith)) in
      (
        record c { recv_buf = record r { c_buf = cb; lbr = add32 r.lbr n } },
        rw (open_state, ne→== r.c_buf.curr_size 0 some_bytes, got_bytes),
        advanced-Received r n v (omega arith),
        refl,
        refl,
        refl,
      )
