-- ===== src/Tcp/Receive/Ring.antt =====
-- What the receive buffer holds of the stream: the unread bytes, from the first unread one to the
-- next expected one, and early segments.
use mini_tls.Prelude.{
  ℕ, ◌+◌, ◌≤◌, ◌<◌, ◌≡◌, refl, ap, ap₂, sym, ◌∙◌, Bool, some, List, ◌++◌, length, All, add32,
  add32_assoc, u32_mod, arith,
}
use mini_tls.Tcp.CircleBuf.{CircleBuf, free_space, write_into_buf}
use mini_tls.Tcp.CircleBuf.Inv.{IsValid}
use mini_tls.Tcp.CircleBuf.Queue.{contents, contents-write_into_buf}
use mini_tls.Tcp.EarlyArrivals.{EarlyArrivals, peek}
use mini_tls.Tcp.EarlyArrivals.Elements.{pop_min_lem}
use mini_tls.Tcp.Stream.{bytes_of, IsFrom, bytes_of-add}
use mini_tls.Tcp.Types.{EarlyArrival, RecvBuf, Conn}
use mini_tls.Tcp.Receive.{take_first}

module _ (S : ℕ → ℕ) where
  abbrev pub IsOfStream : EarlyArrival → Type 0
  IsOfStream x = (x.start_seq < u32_mod) × IsFrom S x.start_seq x.bytes

  -- The ring holds the unread bytes of the stream, and the heap only segments of it.
  pub record Received (r : RecvBuf) : Type 0 where
    pub valid : IsValid r.c_buf
    pub lbr_word : r.lbr < u32_mod
    pub base : r.c_buf.base_seq ≡ add32 r.lbr 1
    pub held : contents r.c_buf ≡ bytes_of S r.c_buf.base_seq r.c_buf.curr_size
    pub early : All IsOfStream r.early_arrivals
    pub next : r.nxt ≡ add32 r.c_buf.base_seq r.c_buf.curr_size

  -- The other fields do not matter, and the heap may be any of such segments.
  pub Received-heap :
      {r : RecvBuf} {h : EarlyArrivals} {d : Bool} {fin : ℕ}
      → Received r
      → All IsOfStream h
      → Received (record r { early_arrivals = h; data_to_read = d; fin = fin })
  Received-heap v a = record {
    valid = v.valid;
    lbr_word = v.lbr_word;
    base = v.base;
    held = v.held;
    early = a;
    next = v.next;
  }

  -- The bytes of the expected segment extend what the ring holds.
  pub held-write :
      (r : RecvBuf) (bytes : List ℕ)
      → Received r
      → IsFrom S r.nxt bytes
      → length bytes ≤ free_space r.c_buf
      → (cb : CircleBuf) × (write_into_buf r.c_buf r.nxt bytes ≡ some (cb, length bytes))
        × (Received (record r { c_buf = cb; nxt = add32 r.nxt (length bytes) })
            × (r.c_buf.curr_size ≤ cb.curr_size))
  held-write r bytes v f h =
      let wrote = contents-write_into_buf bytes v.valid h in
      let cb = wrote.0 in
      let after = wrote.2 in
      let grown : contents cb ≡ bytes_of S cb.base_seq cb.curr_size =
        after.queue
        ∙ ap₂ ◌++◌ v.held (f ∙ ap (λ s. bytes_of S s (length bytes)) v.next)
        ∙ sym (bytes_of-add S r.c_buf.base_seq r.c_buf.curr_size (length bytes) (omega arith))
        ∙ sym (ap₂ (bytes_of S) after.base after.size) in
      (
        cb,
        ap (λ s. write_into_buf r.c_buf s bytes) v.next ∙ wrote.1,
        (
          record {
            valid = after.valid;
            lbr_word = v.lbr_word;
            base = after.base ∙ v.base;
            held = grown;
            early = v.early;
            next =
                ap (λ s. add32 s (length bytes)) v.next
                ∙ add32_assoc r.c_buf.base_seq r.c_buf.curr_size (length bytes)
                ∙ sym (ap₂ add32 after.base after.size);
          },
          omega (arith, after.size),
        ),
      )

  -- A round of the draining loop, at a first early arrival that is expected and fits.
  pub take_first-Received :
      (c : Conn) (x : EarlyArrival)
      → Received c.recv_buf
      → peek c.recv_buf.early_arrivals ≡ some x
      → x.start_seq ≡ c.recv_buf.nxt
      → length x.bytes ≤ free_space c.recv_buf.c_buf
      → (c' : Conn) × (take_first c ≡ some c')
        × Received c'.recv_buf
        × (length c'.recv_buf.early_arrivals + 1 ≡ length c.recv_buf.early_arrivals)
        × (c'.recv_buf.lbr ≡ c.recv_buf.lbr)
        × (c.recv_buf.c_buf.curr_size ≤ c'.recv_buf.c_buf.curr_size)
        × (c'.recv_buf.fin ≡ c.recv_buf.fin)
  unfolding take_first
  take_first-Received c x v e s h =
      let r = c.recv_buf in
      let popped = pop_min_lem IsOfStream r.early_arrivals e v.early in
      let rest = popped.0 in
      let r' = record r { early_arrivals = rest } in
      let v' : Received r' = Received-heap v popped.3 in
      let wrote =
        held-write r' x.bytes v' (popped.4.1 ∙ ap (λ k. bytes_of S k (length x.bytes)) s) h in
      (
        record c { recv_buf = record r' { c_buf = wrote.0; nxt = add32 r.nxt (length x.bytes) } },
        rw (popped.1, ap (λ k. write_into_buf r.c_buf k x.bytes) s ∙ wrote.1),
        wrote.2.0,
        popped.2,
        refl,
        wrote.2.1,
        refl,
      )
