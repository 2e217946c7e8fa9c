-- ===== src/Tcp/Writer/Write.antt =====
-- `VWrite` puts the application's bytes behind what the send buffer holds of the stream.
use mini_tls.Prelude.{
  ℕ, zero, suc, ◌+◌, ◌-◌, ◌≤◌, ◌<◌, min, ◌≡◌, refl, sym, ap, ap₂, ◌∙◌, subst, ◌⊎◌, inl, inr, true,
  false, Option, some, List, [], ◌∷◌, ◌++◌, arith, ◌==◌, Bool-cases, ==→eq, length, take, drop,
  length-take, length-drop, drop-drop, u32_mod, add32,
}
use mini_tls.Tcp.CircleBuf.{free_space, write_into_buf}
use mini_tls.Tcp.CircleBuf.Queue.{contents-write_into_buf}
use mini_tls.Tcp.Receive.{is_closing}
use mini_tls.Tcp.Send.Ack.{Sender, can_send}
use mini_tls.Tcp.Stream.{IsFrom, IsFrom-drop, IsFrom-take, bytes_of, bytes_of-add}
use mini_tls.Tcp.Types.{Conn, State, close_wait, established}
use mini_tls.Tcp.Writer.{WriteResult, vwrite, vwrite_on, write_chunk, write_loop}

can_send-is_closing : (s : State) → can_send s ≡ true → is_closing s ≡ false
can_send-is_closing s = elim s as (λ t. can_send t ≡ true → is_closing t ≡ false) [
  | established ↦ λ h. refl
  | close_wait ↦ λ h. refl
  | _ ↦ λ h. cc
]

-- A round of the loop with space in the buffer.
write_loop_step :
    (fuel : ℕ) (c c1 : Conn) (b : ℕ) (bytes : List ℕ) (total : ℕ)
    → let n = min (suc (length bytes)) (free_space c.send_buf.c_buf) in
      (free_space c.send_buf.c_buf == 0) ≡ false
      → write_chunk c (take n (b ∷ bytes)) ≡ some c1
      → write_loop (suc fuel) c (b ∷ bytes) total
        ≡ write_loop fuel c1 (drop n (b ∷ bytes)) (total + n)
unfolding write_loop
write_loop_step fuel c c1 b bytes total room e = rw (room, e)

-- How the loop ends: with all bytes in the buffer, or in a wait for space for those left.
abbrev pub Ends : Option WriteResult → ℕ → List ℕ → Conn → ℕ → Type 0
Ends r total bytes c' done =
    ((r ≡ some (WriteResult.wrote (total + length bytes) c')) × (done ≡ length bytes))
    ⊎ ((r ≡ some (WriteResult.blocked (drop done bytes) c'))
        × (done < length bytes)
        × (free_space c'.send_buf.c_buf ≡ 0))

module _ (S : ℕ → ℕ) where
  -- The first `done` bytes are in the buffer, and nothing else has changed that matters.
  pub record Written (c c' : Conn) (done : ℕ) : Type 0 where
    pub sender : Sender S c'
    pub lbw : c'.send_buf.lbw ≡ c.send_buf.lbw + done
    pub una : c'.send_buf.una ≡ c.send_buf.una
    pub nxt : c'.send_buf.nxt ≡ c.send_buf.nxt
    pub entry : c'.entry ≡ c.entry
    pub received : c'.recv_buf ≡ c.recv_buf

  write_chunk-Written :
      (c : Conn) (bytes : List ℕ)
      → Sender S c
      → IsFrom S (add32 c.send_buf.lbw 1) bytes
      → c.send_buf.lbw + 1 + length bytes < u32_mod
      → length bytes ≤ free_space c.send_buf.c_buf
      → (c' : Conn) × (write_chunk c bytes ≡ some c') × Written c c' (length bytes)
  unfolding write_chunk
  write_chunk-Written c bytes v f w h =
      let s = c.send_buf in
      let vs = v.sending in
      let wrote = contents-write_into_buf bytes vs.valid h in
      let after = wrote.2 in
      let n = length bytes in
      let at : add32 s.lbw 1 ≡ add32 s.c_buf.base_seq s.c_buf.curr_size =
        omega (arith, vs.base, vs.word, vs.written) in
      let lbw : add32 s.lbw n ≡ s.lbw + n = omega arith in
      let next : add32 s.lbw 1 ≡ add32 s.una s.c_buf.curr_size =
        omega (arith, vs.word, vs.written) in
      (
        record c {
          send_buf = record s { c_buf = wrote.0; lbw = add32 s.lbw n; data_written = true };
        },
        rw (ap (λ q. write_into_buf s.c_buf q bytes) at ∙ wrote.1),
        record {
          sender = record {
            sending = record {
              valid = after.valid;
              una_pos = vs.una_pos;
              base = after.base ∙ vs.base;
              word = omega (arith, after.size, vs.written);
              written = omega (arith, after.size, vs.written, lbw);
              sent_from = vs.sent_from;
              sent_to = omega (arith, vs.sent_to, lbw);
              held =
                  after.queue
                  ∙ ap₂ ◌++◌ vs.held (f ∙ ap (λ q. bytes_of S q n) next)
                  ∙ sym (bytes_of-add S s.una s.c_buf.curr_size n (omega (arith, vs.word)))
                  ∙ ap (bytes_of S s.una) (sym after.size);
            };
            in_step = v.in_step;
            flight = v.flight;
            honest = v.honest;
            state = v.state;
          };
          lbw = lbw;
          una = refl;
          nxt = refl;
          entry = refl;
          received = refl;
        },
      )

  ended_later :
      (n total : ℕ) (bytes : List ℕ) (c' : Conn) (done : ℕ) (r : Option WriteResult)
      → n ≤ length bytes
      → Ends r (total + n) (drop n bytes) c' done
      → Ends r total bytes c' (n + done)
  ended_later n total bytes c' done r h (inl (e, d)) =
      let len : length (drop n bytes) ≡ length bytes - n = length-drop n bytes in
      inl (e ∙ ap (λ k. some (WriteResult.wrote k c')) (omega (arith, len)), omega (arith, d, len))
  ended_later n total bytes c' done r h (inr (e, d, z)) =
      let len : length (drop n bytes) ≡ length bytes - n = length-drop n bytes in
      inr (
        e ∙ ap (λ l. some (WriteResult.blocked l c')) (drop-drop n done bytes),
        omega (arith, d, len),
        z,
      )

  Written-trans :
      (c c1 c2 : Conn) (m n k : ℕ) → Written c c1 m → Written c1 c2 n → k ≡ m + n → Written c c2 k
  Written-trans c c1 c2 m n k a b e = record {
    sender = b.sender;
    lbw = omega (arith, a.lbw, b.lbw, e);
    una = b.una ∙ a.una;
    nxt = b.nxt ∙ a.nxt;
    entry = b.entry ∙ a.entry;
    received = b.received ∙ a.received;
  }

  zero-Written : (c : Conn) → Sender S c → Written c c 0
  zero-Written c v = record {
    sender = v;
    lbw = omega arith;
    una = refl;
    nxt = refl;
    entry = refl;
    received = refl;
  }

  pub write_loop-Written :
      (fuel : ℕ) (c : Conn) (bytes : List ℕ) (total : ℕ)
      → Sender S c
      → IsFrom S (add32 c.send_buf.lbw 1) bytes
      → c.send_buf.lbw + 1 + length bytes < u32_mod
      → length bytes < fuel
      → (c' : Conn) × (done : ℕ) × Ends (write_loop fuel c bytes total) total bytes c' done
        × Written c c' done
  unfolding write_loop
  write_loop-Written zero c bytes total v f w h = absurd (omega arith)
  write_loop-Written (suc fuel) c [] total v f w h =
      (c, 0, inl (ap (λ k. some (WriteResult.wrote k c)) (omega arith), refl), zero-Written c v)
  write_loop-Written (suc fuel) c (b ∷ bytes) total v f w h =
      let space = free_space c.send_buf.c_buf in
      let all = b ∷ bytes in
      let n = min (length all) space in
      elim (Bool-cases (space == 0)) [
        | inl full ↦ (c, 0, inr (rw full, omega arith, ==→eq space 0 full), zero-Written c v)
        | inr room ↦
            let part = take n all in
            let left = drop n all in
            let part_len : length part ≡ n = omega (arith, length-take n all) in
            let left_len : length left ≡ length all - n = length-drop n all in
            let chunk =
              write_chunk-Written c part v
                (IsFrom-take S (add32 c.send_buf.lbw 1) n all f (omega arith))
                (omega (arith, part_len)) (omega (arith, part_len)) in
            let c1 = chunk.0 in
            let pos : 0 < n = ground arith in
            let rest_from : IsFrom S (add32 c1.send_buf.lbw 1) left =
              subst (λ q. IsFrom S q left) {x = add32 (add32 c.send_buf.lbw 1) n}
                (omega (arith, chunk.2.lbw, part_len))
                (IsFrom-drop S (add32 c.send_buf.lbw 1) n all (omega arith) f (omega arith)) in
            let rest =
              write_loop-Written fuel c1 left (total + n) chunk.2.sender rest_from
                (omega (arith, left_len, chunk.2.lbw, part_len)) (omega (arith, left_len)) in
            let step_eq = write_loop_step fuel c c1 b bytes total room chunk.1 in
            let stepped : Ends (write_loop (suc fuel) c all total) (total + n) left rest.0 rest.1 =
              subst (λ r. Ends r (total + n) left rest.0 rest.1)
                {x = write_loop fuel c1 left (total + n)} {y = write_loop (suc fuel) c all total}
                (sym step_eq) rest.2 in
            (
              rest.0,
              n + rest.1,
              ended_later n total all rest.0 rest.1 (write_loop (suc fuel) c all total)
                  (omega arith) stepped,
              Written-trans c c1 rest.0 (length part) rest.1 (n + rest.1) chunk.2 rest.3
                  (omega (arith, part_len)),
            )
      ]

  -- The same of a call that goes on after a wait.
  pub vwrite_on-Written :
      (c : Conn) (bytes : List ℕ) (total : ℕ)
      → Sender S c
      → IsFrom S (add32 c.send_buf.lbw 1) bytes
      → c.send_buf.lbw + 1 + length bytes < u32_mod
      → (c' : Conn) × (done : ℕ) × Ends (vwrite_on c bytes total) total bytes c' done
        × Written c c' done
  unfolding vwrite_on
  vwrite_on-Written c bytes total v f w =
      write_loop-Written (suc (length bytes)) c bytes total v f w (omega arith)

  -- `VWrite` of the next bytes of the stream does not panic: it returns with all of them in the
  -- buffer, or waits with the first of them in it and the buffer full. What was sent and what is in
  -- flight stays.
  pub vwrite-Written :
      (c : Conn) (bytes : List ℕ)
      → Sender S c
      → IsFrom S (add32 c.send_buf.lbw 1) bytes
      → c.send_buf.lbw + 1 + length bytes < u32_mod
      → (c' : Conn) × (done : ℕ) × Ends (vwrite c bytes) 0 bytes c' done × Written c c' done
  unfolding vwrite vwrite_on
  vwrite-Written c bytes v f w =
      let open_state : is_closing c.entry.state ≡ false =
        can_send-is_closing c.entry.state v.state in
      rw open_state (write_loop-Written (suc (length bytes)) c bytes 0 v f w (omega arith))
