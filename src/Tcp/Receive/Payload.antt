-- ===== src/Tcp/Receive/Payload.antt =====
-- The receiving side puts the stream together, whatever order the segments come in.
use mini_tls.Prelude.{
  ℕ, ◌+◌, ◌≤◌, ◌<◌, ◌≡◌, inl, inr, refl, Bool, ◌&&◌, some, List, length, length-take, take, ltb,
  ◌==◌, if◌then◌else◌, add32, u32_mod, arith, Bool-cases, subst,
}
use mini_tls.Tcp.CircleBuf.{free_space}
use mini_tls.Tcp.EarlyArrivals.{push_segment}
use mini_tls.Tcp.EarlyArrivals.Elements.{push_segment-All}
use mini_tls.Tcp.Stream.{IsFrom, IsFrom-take}
use mini_tls.Tcp.Types.{Conn, TcpFields}
use mini_tls.Tcp.Receive.{accept_payload, handle_payload, signal_data}
use mini_tls.Tcp.Output.{send_pure_ack}
use mini_tls.Tcp.Receive.Ring.{IsOfStream, Received, Received-heap, held-write}
use mini_tls.Tcp.Receive.Drain.{Grown, Grown-refl, acked-Grown, Grown-trans, drain-Grown}

module _ (S : ℕ → ℕ) where
  signalled-Grown :
      {c c' : Conn}
      → Grown S c c'
      → let c1 = signal_data c' in Grown S c (send_pure_ack c1 c1.recv_buf.nxt)
  signalled-Grown g = record {
    unread = g.unread;
    more = g.more;
    order = elim g.order [
      | inl p ↦ inl (Received-heap S p.0 p.0.early, p.1)
      | inr p ↦ inr (
        p.0,
        p.1,
        record {
          there = p.2.there;
          expected = p.2.expected;
          past = p.2.past;
          cleared = p.2.cleared;
          ring = p.2.ring;
          read = p.2.read;
        },
      )
    ];
  }

  accept_payload-Grown :
      (c : Conn) (payload : List ℕ)
      → Received S c.recv_buf
      → IsFrom S c.recv_buf.nxt payload
      → length payload ≤ free_space c.recv_buf.c_buf
      → (c' : Conn) × (accept_payload c payload ≡ some c') × Grown S c c'
  unfolding accept_payload
  accept_payload-Grown c payload v f h =
      let wrote = held-write S c.recv_buf payload v f h in
      let r = record (c.recv_buf) {
        c_buf = wrote.0;
        nxt = add32 c.recv_buf.nxt (length payload);
      } in
      let drained =
        drain-Grown S (length r.early_arrivals + 1) (record c { recv_buf = r }) wrote.2.0
          (omega arith) in
      let c1 = signal_data drained.0 in
      (
        send_pure_ack c1 c1.recv_buf.nxt,
        rw (wrote.1, drained.1),
        signalled-Grown (Grown-trans S refl wrote.2.1 refl drained.2),
      )

  pushed-Grown :
      (c : Conn) (seq : ℕ) (payload : List ℕ)
      → Received S c.recv_buf
      → seq < u32_mod
      → IsFrom S seq payload
      → Grown S c (
          send_pure_ack
            (record c {
              recv_buf = record (c.recv_buf) {
                early_arrivals = push_segment c.recv_buf.early_arrivals seq payload;
              };
            })
            c.recv_buf.nxt)
  pushed-Grown c seq payload v w f = record {
    unread = refl;
    more = omega arith;
    order = inl (
      Received-heap S v
          (push_segment-All (IsOfStream S) c.recv_buf.early_arrivals seq payload v.early (w, f)),
      refl,
    );
  }

  cut_to_space :
      (seq nxt space : ℕ) (payload : List ℕ)
      → seq ≡ nxt
      → IsFrom S seq payload
      → let cut = (if ltb space (length payload) then take space payload else payload) in
        IsFrom S nxt cut × (length cut ≤ space)
  cut_to_space seq nxt space payload e f = elim (Bool-cases (ltb space (length payload))) [
    | inl over ↦ rw over (
      subst (λ k. IsFrom S k (take space payload)) e
          (IsFrom-take S seq space payload f (ground arith)),
      omega (arith, length-take space payload),
    )
    | inr fits ↦ rw fits (subst (λ k. IsFrom S k payload) e f, ground arith)
  ]

  -- A segment of the stream is taken without a panic: it goes into the ring or the heap, or is
  -- dropped, and the ring goes on to hold the unread bytes of the stream in order.
  pub handle_payload-Grown :
      (coin : Bool) (c : Conn) (hdr : TcpFields) (payload : List ℕ)
      → Received S c.recv_buf
      → hdr.seq_num < u32_mod
      → IsFrom S hdr.seq_num payload
      → (c' : Conn) × (handle_payload coin c hdr payload ≡ some c') × Grown S c c'
  unfolding handle_payload
  handle_payload-Grown coin c hdr payload v w f =
      let r = c.recv_buf in
      let space = free_space r.c_buf in
      elim (Bool-cases (c.entry.drop_for_retrans && coin)) [
        | inl e0 ↦ (c, rw e0, Grown-refl S c v)
        | inr e0 ↦ elim (Bool-cases (ltb r.nxt hdr.seq_num)) [
          | inl e1 ↦ (
            send_pure_ack
                (record c {
                  recv_buf = record r {
                    early_arrivals = push_segment r.early_arrivals hdr.seq_num payload;
                  };
                })
                r.nxt,
            rw (e0, e1),
            pushed-Grown c hdr.seq_num payload v w f,
          )
          | inr e1 ↦ elim (Bool-cases (ltb hdr.seq_num r.nxt)) [
            | inl e2 ↦ (send_pure_ack c r.nxt, rw (e0, e1, e2), acked-Grown S c r.nxt v)
            | inr e2 ↦ elim (Bool-cases (space == 0)) [
              | inl e3 ↦ (send_pure_ack c r.nxt, rw (e0, e1, e2, e3), acked-Grown S c r.nxt v)
              | inr e3 ↦
                  let cut = (if ltb space (length payload) then take space payload else payload) in
                  let fits = cut_to_space hdr.seq_num r.nxt space payload (ground arith) f in
                  let taken = accept_payload-Grown c cut v fits.0 fits.1 in
                  (taken.0, rw (e0, e1, e2, e3) taken.1, taken.2)
            ]
          ]
        ]
      ]
