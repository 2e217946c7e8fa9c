-- ===== src/Tls/OverTcp/Reads.antt =====
-- `VRead` gives the next bytes: those that the receive buffer holds, or, after a wait, those of the
-- next segment.
use mini_tls.Prelude.{
  ℕ, zero, suc, ◌+◌, ◌≤◌, ◌<◌, min, ◌≡◌, refl, sym, ap, ◌∙◌, ◌⊎◌, inl, inr, false, some, List, [],
  ◌∷◌, ◌++◌, append_assoc, arith, length, take, drop, replicate, length-append, length-take,
  length-drop, take-append-drop, take-append, drop-append, add32,
}
use mini_tls.Tcp.CircleBuf.{advance_base, free_space}
use mini_tls.Tcp.CircleBuf.Inv.{advance_base-IsValid, advance_base_lem, free_space_lem}
use mini_tls.Tcp.CircleBuf.Queue.{contents, contents-advance_base, contents_none}
use mini_tls.Tcp.Output.{send_pure_ack}
use mini_tls.Tcp.Receive.{blocked, got, handle_payload, is_closing, signal_data, vread}
use mini_tls.Tcp.Receive.InOrder.{handle_payload-Appended, vread-contents, vread_open, vread_waits}
use mini_tls.Tcp.Types.{Conn, TcpFields}
use mini_tls.Tls.OverTcp.{Linked, TcpEnd, carried, tcp_read, tcp_read_on}
use mini_tls.Tls.OverTcp.Writes.{length-contents}

-- Taking and dropping within the first of two lists.
take-first :
    (k : ℕ) (held later : List ℕ)
    → k ≤ length held
    → (take k (held ++ later) ≡ take k held) × (drop k (held ++ later) ≡ drop k held ++ later)
take-first k held later h =
    let first : length (take k held) ≡ k = omega (arith, length-take k held) in
    let split : held ++ later ≡ take k held ++ (drop k held ++ later) =
      ap (λ l. l ++ later) (sym (take-append-drop k held))
      ∙ append_assoc (take k held) (drop k held) later in
    (
      ap (take k) split ∙ take-append k (take k held) (drop k held ++ later) first,
      ap (drop k) split ∙ drop-append k (take k held) (drop k held ++ later) first,
    )

tcp_read_got :
    (incoming : List (TcpFields × List ℕ)) (c c' : Conn) (n k : ℕ) (dest : List ℕ)
    → vread c (replicate n 0) ≡ some (got k dest c')
    → tcp_read incoming c n ≡ some (record { conn = c'; incoming = incoming }, take k dest)
tcp_read_got incoming c c' n k dest e = rw e refl

-- The connection after `VRead` took the oldest bytes.
abbrev pub taken : Conn → ℕ → Conn
taken c k = record c {
  recv_buf = record (c.recv_buf) {
    c_buf = advance_base c.recv_buf.c_buf k;
    lbr = add32 c.recv_buf.lbr k;
  };
}

-- What an end comes to by a read.
pub record Progress (limit : ℕ) (incoming : List (TcpFields × List ℕ)) (c : Conn)
    (out rest : List ℕ) (n : ℕ) : Type 0 where
  pub after : TcpEnd
  pub size : ℕ
  pub result : tcp_read incoming c n ≡ some (after, take size rest)
  pub some_bytes : 0 < size
  pub within : size ≤ n
  pub bounded : size ≤ length rest
  pub linked : Linked limit after out (drop size rest)

-- A read where the ring holds bytes.
tcp_read_held :
    (limit : ℕ) (incoming : List (TcpFields × List ℕ)) (c : Conn) (out rest : List ℕ) (n : ℕ)
    → Linked limit (record { conn = c; incoming = incoming }) out rest
    → 0 < n
    → 0 < c.recv_buf.c_buf.curr_size
    → Progress limit incoming c out rest n
tcp_read_held limit incoming c out rest n l pos held =
    let a = l.awaits in
    let cb = c.recv_buf.c_buf in
    let k = min n cb.curr_size in
    let len = length-contents cb in
    let r = vread-contents c n l.open_state a.valid a.base held in
    let first = take-first k (contents cb) (carried incoming) (omega (arith, len)) in
    let after = advance_base_lem k a.valid (omega arith) in
    let left : drop k rest ≡ contents (advance_base cb k) ++ carried incoming =
      ap (drop k) a.all
      ∙ first.1
      ∙ ap (λ q. q ++ carried incoming) (sym (contents-advance_base k a.valid (omega arith))) in
    let whole : length rest ≡ length (contents cb) + length (carried incoming) =
      ap length a.all ∙ length-append (contents cb) (carried incoming) in
    record {
      after = record { conn = taken c k; incoming = incoming };
      size = k;
      result =
          tcp_read_got incoming c (taken c k) n k r.0 r.1
          ∙ ap (λ q. some (record { conn = taken c k; incoming = incoming }, q))
              (r.2 ∙ sym (ap (take k) a.all ∙ first.0));
      some_bytes = omega arith;
      within = omega arith;
      bounded = omega (arith, len, whole);
      linked = record {
        open_state = l.open_state;
        not_close_wait = l.not_close_wait;
        holds = record {
          valid = l.holds.valid;
          size = l.holds.size;
          behind = l.holds.behind;
          held = l.holds.held;
        };
        awaits = record {
          valid = advance_base-IsValid k a.valid;
          base = omega (arith, after.1, a.base);
          next = omega (arith, after.0, after.1, a.next);
          no_fin = a.no_fin;
          none_early = a.none_early;
          none_dropped = a.none_dropped;
          follow = a.follow;
          fits = omega (arith, length-drop k rest, a.fits);
          all = left;
        };
      };
    }

-- What a read that had to wait goes on to is what a read comes to then.
tcp_read_waited :
    (hdr : TcpFields) (payload : List ℕ) (rest : List (TcpFields × List ℕ)) (c waiting c' : Conn)
    (n : ℕ)
    → vread c (replicate n 0) ≡ some (blocked waiting)
    → handle_payload false waiting hdr payload ≡ some c'
    → is_closing c'.entry.state ≡ false
    → tcp_read ((hdr, payload) ∷ rest) c n ≡ tcp_read rest c' n
unfolding tcp_read_on
tcp_read_waited hdr payload rest c waiting c' n e e' o =
    rw (e, e', vread_open c' (replicate n 0) o) refl

-- A read where the ring is empty: the next segment fills it.
tcp_read_empty :
    (limit : ℕ) (hdr : TcpFields) (payload : List ℕ) (later : List (TcpFields × List ℕ)) (c : Conn)
    (out rest : List ℕ) (n : ℕ)
    → Linked limit (record { conn = c; incoming = (hdr, payload) ∷ later }) out rest
    → 0 < n
    → c.recv_buf.c_buf.curr_size ≡ 0
    → Progress limit ((hdr, payload) ∷ later) c out rest n
tcp_read_empty limit hdr payload later c out rest n l pos empty =
    let a = l.awaits in
    let waiting = record c { recv_buf = record (c.recv_buf) { data_to_read = false } } in
    let waits = vread_waits c n l.open_state l.not_close_wait empty in
    let none_held : contents c.recv_buf.c_buf ≡ [] = contents_none c.recv_buf.c_buf empty in
    let whole : rest ≡ payload ++ carried later =
      a.all ∙ ap (λ q. q ++ (payload ++ carried later)) none_held in
    let len : length rest ≡ length payload + length (carried later) =
      ap length whole ∙ length-append payload (carried later) in
    let fit : length payload ≤ free_space c.recv_buf.c_buf =
      omega (arith, len, a.fits, empty, free_space_lem a.valid) in
    let p =
      handle_payload-Appended waiting hdr payload a.valid a.next a.no_fin a.none_early a.follow.0
        a.follow.1 fit in
    let nxt = add32 c.recv_buf.nxt (length payload) in
    let c' =
      send_pure_ack
        (signal_data
          (record waiting { recv_buf = record (waiting.recv_buf) { c_buf = p.0; nxt = nxt } }))
        nxt in
    let b = p.2 in
    let q =
      tcp_read_held limit later c' out rest n
        (record {
          open_state = l.open_state;
          not_close_wait = l.not_close_wait;
          holds = record {
            valid = l.holds.valid;
            size = l.holds.size;
            behind = l.holds.behind;
            held = l.holds.held;
          };
          awaits = record {
            valid = b.valid;
            base = b.base ∙ a.base;
            next = omega (arith, a.next, b.size, b.base);
            no_fin = a.no_fin;
            none_early = a.none_early;
            none_dropped = a.none_dropped;
            follow = a.follow.2;
            fits = omega (arith, a.fits, b.capacity);
            all =
                whole
                ∙ ap (λ q. q ++ carried later) (sym (b.queue ∙ ap (λ q. q ++ payload) none_held));
          };
        })
        pos (omega (arith, b.size, a.follow.1)) in
    record {
      after = q.after;
      size = q.size;
      result = tcp_read_waited hdr payload later c waiting c' n waits p.1 l.open_state ∙ q.result;
      some_bytes = q.some_bytes;
      within = q.within;
      bounded = q.bounded;
      linked = q.linked;
    }

-- A read while there are bytes to come gives some of the next ones.
pub tcp_read-Progress :
    (limit : ℕ) (incoming : List (TcpFields × List ℕ)) (c : Conn) (out rest : List ℕ) (n : ℕ)
    → Linked limit (record { conn = c; incoming = incoming }) out rest
    → 0 < n
    → 0 < length rest
    → Progress limit incoming c out rest n
tcp_read-Progress limit incoming c out rest n l pos more =
    let size = c.recv_buf.c_buf.curr_size in
    elim (zero_or_more size) [
      | inl empty ↦ from_empty limit incoming c out rest n l pos more empty
      | inr held ↦ tcp_read_held limit incoming c out rest n l pos held
    ]
  where
    zero_or_more : (n : ℕ) → (n ≡ 0) ⊎ (0 < n)
    zero_or_more zero = inl refl
    zero_or_more (suc n) = inr (omega arith)

    from_empty :
        (limit : ℕ) (incoming : List (TcpFields × List ℕ)) (c : Conn) (out rest : List ℕ) (n : ℕ)
        → Linked limit (record { conn = c; incoming = incoming }) out rest
        → 0 < n
        → 0 < length rest
        → c.recv_buf.c_buf.curr_size ≡ 0
        → Progress limit incoming c out rest n
    from_empty limit [] c out rest n l pos more empty =
        let none_left : length (contents c.recv_buf.c_buf ++ []) ≡ 0 =
          length-append (contents c.recv_buf.c_buf) []
          ∙ omega (arith, length-contents c.recv_buf.c_buf, empty) in
        absurd (omega (arith, more, ap length l.awaits.all, none_left))
    from_empty limit ((hdr, payload) ∷ later) c out rest n l pos more empty =
        tcp_read_empty limit hdr payload later c out rest n l pos empty
