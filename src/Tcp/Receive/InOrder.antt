-- ===== src/Tcp/Receive/InOrder.antt =====
-- A receiving side to which segments come in order, at the level of the queue of its ring: what
-- `handlePayload` puts in and `VRead` takes out.
use mini_tls.Prelude.{
  ℕ, ◌≤◌, ◌<◌, min, ◌≡◌, refl, sym, ap, ◌∙◌, true, false, ◌&&◌, some, List, [], arith, ltb, ◌==◌,
  length, take, blit, replicate, length-replicate, take-blit, add32,
}
use mini_tls.Tcp.CircleBuf.{CircleBuf, advance_base, free_space, seq_num_to_index, write_into_buf}
use mini_tls.Tcp.CircleBuf.Inv.{IsValid, region}
use mini_tls.Tcp.CircleBuf.Queue.{Appended, contents, contents-write_into_buf, region-eq-take}
use mini_tls.Tcp.CircleBuf.Read.{read_from_buf_lem}
use mini_tls.Tcp.CircleBuf.Span.{length-span}
use mini_tls.Tcp.Output.{send_pure_ack}
use mini_tls.Tcp.Receive.{
  ReadResult, accept_payload, drain, handle_early_fin, handle_payload, is_close_wait, is_closing,
  signal_data, vread, vread_on,
}
use mini_tls.Tcp.Types.{Conn, TcpFields}

-- The expected segment, with space for it and nothing early, goes behind the unread bytes.
pub handle_payload-Appended :
    (c : Conn) (hdr : TcpFields) (payload : List ℕ)
    → IsValid c.recv_buf.c_buf
    → c.recv_buf.nxt ≡ add32 c.recv_buf.c_buf.base_seq c.recv_buf.c_buf.curr_size
    → c.recv_buf.fin ≡ 0
    → c.recv_buf.early_arrivals ≡ []
    → hdr.seq_num ≡ c.recv_buf.nxt
    → 0 < length payload
    → length payload ≤ free_space c.recv_buf.c_buf
    → (cb : CircleBuf) × (let nxt = add32 c.recv_buf.nxt (length payload) in
        handle_payload false c hdr payload
        ≡ some (
            send_pure_ack
              (signal_data (record c { recv_buf = record (c.recv_buf) { c_buf = cb; nxt = nxt } }))
              nxt))
      × Appended c.recv_buf.c_buf payload cb
unfolding handle_payload accept_payload drain handle_early_fin
handle_payload-Appended c hdr payload v next no_fin none_early seq pos fit =
    let r = c.recv_buf in
    let w = contents-write_into_buf payload v fit in
    let wrote = ap (λ s. write_into_buf r.c_buf s payload) next ∙ w.1 in
    let dropped : (c.entry.drop_for_retrans && false) ≡ false = ground arith in
    let early : ltb r.nxt hdr.seq_num ≡ false = ground arith in
    let old : ltb hdr.seq_num r.nxt ≡ false = ground arith in
    let full : (free_space r.c_buf == 0) ≡ false = ground (arith, fit) in
    let whole : ltb (free_space r.c_buf) (length payload) ≡ false = ground (arith, fit) in
    (w.0, rw (dropped, early, old, full, whole, wrote, none_early, no_fin) refl, w.2)

-- `VRead` takes the oldest bytes, as many as there are and as the buffer holds.
pub vread-contents :
    (c : Conn) (n : ℕ)
    → is_closing c.entry.state ≡ false
    → IsValid c.recv_buf.c_buf
    → c.recv_buf.c_buf.base_seq ≡ add32 c.recv_buf.lbr 1
    → 0 < c.recv_buf.c_buf.curr_size
    → let r = c.recv_buf in
      let k = min n r.c_buf.curr_size in
      (dest : List ℕ) × (vread c (replicate n 0)
        ≡ some (
            ReadResult.got k dest (record c {
              recv_buf = record r { c_buf = advance_base r.c_buf k; lbr = add32 r.lbr k };
            })))
      × (take k dest ≡ take k (contents r.c_buf))
unfolding vread
vread-contents c n o v base pos =
    let r = c.recv_buf in
    let cb = r.c_buf in
    let k = min n cb.curr_size in
    let zeros : length (replicate {A = ℕ} n 0) ≡ n = length-replicate {A = ℕ} n 0 in
    let read = read_from_buf_lem (add32 r.lbr 1) k (replicate n 0) v (omega (arith, v.filled)) in
    let all : min k (length (replicate {A = ℕ} n 0)) ≡ k = omega (arith, zeros) in
    let bytes = region cb (add32 r.lbr 1) k in
    let size : length bytes ≡ k =
      length-span cb.buf cb.max_size (seq_num_to_index cb (add32 r.lbr 1)) k in
    let some_bytes : (cb.curr_size == 0) ≡ false = ground (arith, pos) in
    (
      blit (replicate n 0) 0 bytes,
      rw (o, some_bytes, zeros) (rw (read, all) refl),
      ap (λ m. take m (blit (replicate n 0) 0 bytes)) (sym size)
          ∙ take-blit (replicate n 0) bytes (omega (arith, size, zeros))
          ∙ ap (λ s. region cb s k) (sym base)
          ∙ region-eq-take k v (omega arith),
    )

pub vread_waits :
    (c : Conn) (n : ℕ)
    → is_closing c.entry.state ≡ false
    → is_close_wait c.entry.state ≡ false
    → c.recv_buf.c_buf.curr_size ≡ 0
    → vread c (replicate n 0)
      ≡ some (
          ReadResult.blocked (record c { recv_buf = record (c.recv_buf) { data_to_read = false } }))
unfolding vread
vread_waits c n o w empty =
    let none_left : (c.recv_buf.c_buf.curr_size == 0) ≡ true = ground (arith, empty) in
    rw (o, none_left, w) refl

pub vread_open :
    (c : Conn) (dest : List ℕ) → is_closing c.entry.state ≡ false → vread c dest ≡ vread_on c dest
unfolding vread
vread_open c dest o = rw o refl
