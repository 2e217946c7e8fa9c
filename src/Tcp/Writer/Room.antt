-- ===== src/Tcp/Writer/Room.antt =====
-- `VWrite` while there is space, whatever is in flight.
use mini_tls.Prelude.{
  ℕ, suc, ◌+◌, ◌≤◌, ◌<◌, min, ◌≡◌, refl, ap, ◌∙◌, true, false, some, List, [], ◌∷◌, arith, ◌==◌,
  length, drop, length-drop, take-length, nil_of_length, add32,
}
use mini_tls.Tcp.CircleBuf.{CircleBuf, free_space, write_into_buf}
use mini_tls.Tcp.CircleBuf.Inv.{IsValid}
use mini_tls.Tcp.CircleBuf.Queue.{Appended, contents-write_into_buf}
use mini_tls.Tcp.Receive.{is_closing}
use mini_tls.Tcp.Types.{Conn}
use mini_tls.Tcp.Writer.{WriteResult, vwrite, vwrite_on, write_chunk, write_loop}

-- `VWrite` of bytes for which there is space returns in its first round, with all of them behind those
-- that the ring holds.
pub vwrite-Appended :
    (c : Conn) (bytes : List ℕ)
    → is_closing c.entry.state ≡ false
    → IsValid c.send_buf.c_buf
    → add32 c.send_buf.lbw 1 ≡ add32 c.send_buf.c_buf.base_seq c.send_buf.c_buf.curr_size
    → 0 < length bytes
    → length bytes ≤ free_space c.send_buf.c_buf
    → (cb : CircleBuf) × (vwrite c bytes
        ≡ some (
            WriteResult.wrote (length bytes) (record c {
              send_buf = record (c.send_buf) {
                c_buf = cb;
                lbw = add32 c.send_buf.lbw (length bytes);
                data_written = true;
              };
            })))
      × Appended c.send_buf.c_buf bytes cb
unfolding vwrite vwrite_on write_loop write_chunk
vwrite-Appended c [] o v behind pos fit = absurd (omega arith)
vwrite-Appended c (b ∷ bytes) o v behind pos fit =
    let all = b ∷ bytes in
    let cb = c.send_buf.c_buf in
    let w = contents-write_into_buf all v fit in
    let n : min (suc (length bytes)) (free_space cb) ≡ suc (length bytes) = omega (arith, fit) in
    let some_space : (free_space cb == 0) ≡ false = ground (arith, fit) in
    let none_before : 0 + suc (length bytes) ≡ suc (length bytes) = omega arith in
    let whole = take-length (length bytes) bytes (omega arith) in
    let none_left : drop (length bytes) bytes ≡ [] =
      nil_of_length (drop (length bytes) bytes) (omega (arith, length-drop (length bytes) bytes)) in
    (
      w.0,
      rw (o, some_space, n, whole, none_left, ap (λ s. write_into_buf cb s all) behind ∙ w.1)
          (rw none_before refl),
      w.2,
    )
