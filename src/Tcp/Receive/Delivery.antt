-- ===== src/Tcp/Receive/Delivery.antt =====
-- The receiving side as a whole: segments that arrive in any order, and calls of `VRead` between
-- them, against the stream.
use mini_tls.Prelude.{
  ℕ, ◌<◌, ◌≡◌, ◌≢◌, ◌⊎◌, inl, inr, refl, ap, ap₂, sym, ◌∙◌, Bool, false, Option, some, List, [],
  ◌∷◌, ◌++◌, length, take, blit, min, All, ◌==◌, ◌>>=◌, add32, u32_mod, arith, Bool-cases,
  replicate, length-append, take-blit,
}
use mini_tls.Tcp.Stream.{bytes_of, IsFrom, bytes_of-add, length-bytes_of}
use mini_tls.Tcp.Types.{Conn, TcpFields}
use mini_tls.Tcp.Receive.{vread, ReadResult, is_closing, is_close_wait, handle_payload}
use mini_tls.Tcp.Receive.Ring.{Received, Received-heap}
use mini_tls.Tcp.Receive.Drain.{Grown}
use mini_tls.Tcp.Receive.Payload.{handle_payload-Grown}
use mini_tls.Tcp.Receive.Reader.{vread-Received}

-- A segment with the coin of `dropForRetrans`, or a call of `VRead` with a buffer of a size.
pub data Event : Type 0 where
  arrives : Bool → TcpFields → List ℕ → Event
  reads : ℕ → Event

-- The bytes that a call of `VRead` gives to the application.
pub read_result : Conn → ReadResult → Conn × List ℕ
read_result c ReadResult.closing = (c, [])
read_result c ReadResult.eof = (c, [])
read_result c (ReadResult.blocked c') = (c', [])
read_result c (ReadResult.got n dest c') = (c', take n dest)

pub deliver : Conn → Event → Option (Conn × List ℕ)
unfolding read_result
deliver c (arrives coin hdr payload) = handle_payload coin c hdr payload >>= λ c'. some (c', [])
deliver c (reads n) = vread c (replicate n 0) >>= λ r. some (read_result c r)

-- All bytes that the application reads during some events.
pub deliver_all : Conn → List Event → Option (Conn × List ℕ)
deliver_all c [] = some (c, [])
deliver_all c (e ∷ es) = do
  first ← deliver c e
  rest ← deliver_all first.0 es
  some (rest.0, first.1 ++ rest.1)

vread_cases :
    (c : Conn) (dest : List ℕ)
    → (vread c dest ≡ some ReadResult.closing)
      ⊎ (vread c dest ≡ some ReadResult.eof)
      ⊎ (vread c dest
          ≡ some (
              ReadResult.blocked
                (record c { recv_buf = record (c.recv_buf) { data_to_read = false } })))
      ⊎ ((is_closing c.entry.state ≡ false) × (c.recv_buf.c_buf.curr_size ≢ 0))
unfolding vread
vread_cases c dest = elim (Bool-cases (is_closing c.entry.state)) [
  | inl closing ↦ inl (rw closing)
  | inr going ↦ elim (Bool-cases (c.recv_buf.c_buf.curr_size == 0)) [
    | inl empty ↦ elim (Bool-cases (is_close_wait c.entry.state)) [
      | inl done ↦ inr (inl (rw (going, empty, done)))
      | inr more ↦ inr (inr (inl (rw (going, empty, more))))
    ]
    | inr held ↦ inr (inr (inr (going, ground arith)))
  ]
]

module _ (S : ℕ → ℕ) where
  abbrev pub IsHonest : Event → Type 0
  IsHonest (arrives coin hdr payload) = (hdr.seq_num < u32_mod) × IsFrom S hdr.seq_num payload
  IsHonest (reads n) = Unit {0}

  -- The bytes are the next ones of the stream, and what is left is in order.
  pub record Delivered (c : Conn) (c' : Conn) (out : List ℕ) : Type 0 where
    pub bytes : IsFrom S (add32 c.recv_buf.lbr 1) out
    pub lbr : c'.recv_buf.lbr ≡ add32 c.recv_buf.lbr (length out)
    pub received : Received S c'.recv_buf
    pub no_fin : c'.recv_buf.fin ≡ 0

  stay-Delivered :
      (c c' : Conn)
      → Received S c'.recv_buf
      → c.recv_buf.lbr < u32_mod
      → c'.recv_buf.lbr ≡ c.recv_buf.lbr
      → c'.recv_buf.fin ≡ 0
      → Delivered c c' []
  stay-Delivered c c' v w l z = record { bytes = refl; lbr = omega arith; received = v; no_fin = z }

  Grown-Delivered :
      (c c' : Conn)
      → c.recv_buf.lbr < u32_mod
      → c.recv_buf.fin ≡ 0
      → Grown S c c'
      → Delivered c c' []
  Grown-Delivered c c' w z g = elim g.order [
    | inl p ↦ stay-Delivered c c' p.0 w g.unread (p.1 ∙ z)
    | inr p ↦ absurd (p.2.there z)
  ]

  read-Delivered :
      (c : Conn) (n : ℕ)
      → Received S c.recv_buf
      → c.recv_buf.fin ≡ 0
      → (c' : Conn) × (out : List ℕ) × (deliver c (reads n) ≡ some (c', out)) × Delivered c c' out
  unfolding deliver
  read-Delivered c n v z = elim (vread_cases c (replicate n 0)) [
    | inl closing ↦ (c, [], rw closing, stay-Delivered c c v v.lbr_word refl z)
    | inr (inl eof) ↦ (c, [], rw eof, stay-Delivered c c v v.lbr_word refl z)
    | inr (inr (inl blocked)) ↦
        let r = record (c.recv_buf) { data_to_read = false } in
        let c' = record c { recv_buf = r } in
        (c', [], rw blocked, stay-Delivered c c' (Received-heap S v v.early) v.lbr_word refl z)
    | inr (inr (inr (open_state, some_bytes))) ↦
        let read = vread-Received S c (replicate n 0) v open_state some_bytes in
        let m = min (length (replicate {A = ℕ} n 0)) c.recv_buf.c_buf.curr_size in
        let bytes = bytes_of S (add32 c.recv_buf.lbr 1) m in
        let l : length bytes ≡ m = length-bytes_of S (add32 c.recv_buf.lbr 1) m in
        let out : take m (blit (replicate n 0) 0 bytes) ≡ bytes =
          ap (λ k. take k (blit (replicate n 0) 0 bytes)) (sym l)
          ∙ take-blit (replicate n 0) bytes (omega (arith, l)) in
        (
          read.0,
          bytes,
          rw (read.1, out),
          record {
            bytes = ap (bytes_of S (add32 c.recv_buf.lbr 1)) (sym l);
            lbr = read.3 ∙ ap (add32 c.recv_buf.lbr) (sym l);
            received = read.2;
            no_fin = read.5 ∙ z;
          },
        )
  ]

  deliver-Delivered :
      (c : Conn) (e : Event)
      → Received S c.recv_buf
      → c.recv_buf.fin ≡ 0
      → IsHonest e
      → (c' : Conn) × (out : List ℕ) × (deliver c e ≡ some (c', out)) × Delivered c c' out
  unfolding deliver
  deliver-Delivered c (arrives coin hdr payload) v z h =
      let taken = handle_payload-Grown S coin c hdr payload v h.0 h.1 in
      (taken.0, [], rw taken.1, Grown-Delivered c taken.0 v.lbr_word z taken.2)
  deliver-Delivered c (reads n) v z h = read-Delivered c n v z

  joined :
      (a b : List ℕ) (lbr lbr' : ℕ)
      → lbr < u32_mod
      → lbr' ≡ add32 lbr (length a)
      → IsFrom S (add32 lbr 1) a
      → IsFrom S (add32 lbr' 1) b
      → IsFrom S (add32 lbr 1) (a ++ b)
  joined a b lbr lbr' w e fa fb =
      let there : add32 lbr' 1 ≡ add32 (add32 lbr 1) (length a) = omega arith in
      ap₂ ◌++◌ fa (fb ∙ ap (λ s. bytes_of S s (length b)) there)
      ∙ sym (bytes_of-add S (add32 lbr 1) (length a) (length b) (omega arith))
      ∙ ap (bytes_of S (add32 lbr 1)) (sym (length-append a b))

  -- Whatever segments of the stream arrive, in whatever order and however often, while no FIN has
  -- come, nothing panics, and the bytes that all the calls of `VRead` give, put together, are the
  -- bytes of the stream from the first unread one on.
  pub deliver_all-Delivered :
      (es : List Event) (c : Conn)
      → Received S c.recv_buf
      → c.recv_buf.fin ≡ 0
      → All IsHonest es
      → (c' : Conn) × (out : List ℕ) × (deliver_all c es ≡ some (c', out)) × Delivered c c' out
  unfolding deliver_all
  deliver_all-Delivered [] c v z h = (c, [], refl, stay-Delivered c c v v.lbr_word refl z)
  deliver_all-Delivered (e ∷ es) c v z h =
      let first = deliver-Delivered c e v z h.0 in
      let rest = deliver_all-Delivered es first.0 first.3.received first.3.no_fin h.1 in
      (
        rest.0,
        first.1 ++ rest.1,
        rw (first.2, rest.2),
        record {
          bytes =
              joined first.1 rest.1 c.recv_buf.lbr first.0.recv_buf.lbr v.lbr_word first.3.lbr
                first.3.bytes rest.3.bytes;
          lbr = omega (arith, length-append first.1 rest.1, first.3.lbr, rest.3.lbr);
          received = rest.3.received;
          no_fin = rest.3.no_fin;
        },
      )
