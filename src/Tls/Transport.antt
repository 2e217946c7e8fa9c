-- ===== src/Tls/Transport.antt =====
-- What the TLS layer needs of a TCP connection, and the loops `ReadFull` and `WriteFull` of
-- doTls.go in pkg/tlsStack over it.
use mini_tls.Prelude.{
  ℕ, zero, suc, ◌+◌, ◌-◌, ◌≤◌, ◌<◌, ◌≡◌, refl, sym, ap, ◌∙◌, subst, false, Option, none, some, List,
  [], ◌∷◌, ◌++◌, append-nil, append_assoc, arith, ◌==◌, if◌then◌else◌, ◌>>=◌, ne→==, length, take,
  drop, length-append, length-take, length-drop, take-append-drop, drop-drop, take_add,
}

-- `VRead` with a buffer of a size, which gives the bytes read, and `VWrite`, which gives the number
-- written.
pub record Transport (C : Type 0) : Type 0 where
  pub vread : C → ℕ → Option (C × List ℕ)
  pub vwrite : C → List ℕ → Option (C × ℕ)

-- A connection that delivers: some bytes have been written to it, up to a limit, and some are still to
-- be read. `Tls.OverTcp` has the TCP connections of pkg/tcpStack as such ones.
pub record Delivers {C : Type 0} (t : Transport C) : Type 1 where
  pub limit : ℕ
  pub Link : C → List ℕ → List ℕ → Type 0
  -- A read gives some of the next bytes.
  pub reads :
      (c : C) (out rest : List ℕ) (n : ℕ)
      → Link c out rest
      → 0 < n
      → 0 < length rest
      → (c' : C) × (k : ℕ) × (t.vread c n ≡ some (c', take k rest))
        × (0 < k)
        × (k ≤ n)
        × (k ≤ length rest)
        × Link c' out (drop k rest)
  -- A write takes some of the bytes.
  pub writes :
      (c : C) (out rest bytes : List ℕ)
      → Link c out rest
      → 0 < length bytes
      → length out + length bytes ≤ limit
      → (c' : C) × (k : ℕ) × (t.vwrite c bytes ≡ some (c', k))
        × (0 < k)
        × (k ≤ length bytes)
        × Link c' (out ++ take k bytes) rest

module _ {C : Type 0} (t : Transport C) where
  -- The loop of `ReadFull`, for the bytes that are left to read; each round reads one at least.
  pub read_loop : ℕ → C → ℕ → Option (C × List ℕ)
  read_loop zero c n = none
  read_loop (suc fuel) c zero = some (c, [])
  read_loop (suc fuel) c (suc n) = t.vread c (suc n) >>= λ r.
      let rest = (read_loop fuel r.0 (suc n - length r.1) >>= λ q. some (q.0, r.1 ++ q.1)) in
      if length r.1 == 0 then none else rest

  -- `ReadFull`
  abbrev pub read_full : C → ℕ → Option (C × List ℕ)
  read_full c n = read_loop (suc n) c n

  -- The loop of `WriteFull`, for the bytes that are left to write.
  pub write_loop : ℕ → C → List ℕ → Option C
  write_loop zero c bytes = none
  write_loop (suc fuel) c [] = some c
  write_loop (suc fuel) c (b ∷ bytes) = t.vwrite c (b ∷ bytes) >>= λ r.
      let rest = write_loop fuel r.0 (drop r.1 (b ∷ bytes)) in if r.1 == 0 then none else rest

  -- `WriteFull`
  abbrev pub write_full : C → List ℕ → Option C
  write_full c bytes = write_loop (suc (length bytes)) c bytes

  -- A round of the loop that read something.
  read_loop_step :
      (fuel n : ℕ) (c c1 c2 : C) (part more : List ℕ)
      → t.vread c (suc n) ≡ some (c1, part)
      → (length part == 0) ≡ false
      → read_loop fuel c1 (suc n - length part) ≡ some (c2, more)
      → read_loop (suc fuel) c (suc n) ≡ some (c2, part ++ more)
  unfolding read_loop
  read_loop_step fuel n c c1 c2 part more e some_read rest = rw (e, some_read, rest)

  module _ (d : Delivers t) where
    -- `ReadFull` on a connection that delivers ends with exactly the next bytes.
    pub read_full-Link :
        (fuel n : ℕ) (c : C) (out rest : List ℕ)
        → d.Link c out rest
        → n ≤ length rest
        → n < fuel
        → (c' : C) × (read_loop fuel c n ≡ some (c', take n rest)) × d.Link c' out (drop n rest)
    unfolding read_loop
    read_full-Link zero n c out rest v h f = absurd (omega arith)
    read_full-Link (suc fuel) zero c out rest v h f = (c, refl, v)
    read_full-Link (suc fuel) (suc n) c out rest v h f =
        let r = d.reads c out rest (suc n) v (omega arith) (omega arith) in
        let k = r.1 in
        let part = take k rest in
        let len : length part ≡ k = omega (arith, length-take k rest) in
        let left : suc n - length part ≡ suc n - k = omega (arith, len) in
        let more =
          read_full-Link fuel (suc n - k) r.0 out (drop k rest) r.6
            (omega (arith, length-drop k rest)) (omega arith) in
        let all : k + (suc n - k) ≡ suc n = omega arith in
        (
          more.0,
          read_loop_step fuel n c r.0 more.0 part (take (suc n - k) (drop k rest)) r.2
                (ne→== (length part) 0 (λ e. absurd (omega (arith, e, len))))
                (ap (read_loop fuel r.0) left ∙ more.1)
              ∙ ap (λ l. some (more.0, l))
                  (take_add k (suc n - k) rest ∙ ap (λ m. take m rest) all),
          subst (d.Link more.0 out) (drop-drop k (suc n - k) rest ∙ ap (λ m. drop m rest) all)
              more.2,
        )

    -- `WriteFull` ends with all bytes written.
    pub write_full-Link :
        (fuel : ℕ) (c : C) (out rest bytes : List ℕ)
        → d.Link c out rest
        → length bytes < fuel
        → length out + length bytes ≤ d.limit
        → (c' : C) × (write_loop fuel c bytes ≡ some c') × d.Link c' (out ++ bytes) rest
    unfolding write_loop
    write_full-Link zero c out rest bytes v f room = absurd (omega arith)
    write_full-Link (suc fuel) c out rest [] v f room =
        (c, refl, subst (λ l. d.Link c l rest) (sym (append-nil out)) v)
    write_full-Link (suc fuel) c out rest (b ∷ bytes) v f room =
        let all = b ∷ bytes in
        let r = d.writes c out rest all v (omega arith) room in
        let k = r.1 in
        let more =
          write_full-Link fuel r.0 (out ++ take k all) rest (drop k all) r.5
            (omega (arith, length-drop k all))
            (omega (
              arith,
              room,
              r.4,
              length-drop k all,
              length-take k all,
              length-append out (take k all),
            )) in
        let some_written : (k == 0) ≡ false = ne→== k 0 (λ e. absurd (omega (arith, e, r.3))) in
        (
          more.0,
          rw (r.2, some_written) more.1,
          subst (λ l. d.Link more.0 l rest)
              (append_assoc out (take k all) (drop k all) ∙ ap (◌++◌ out) (take-append-drop k all))
              more.2,
        )
