-- ===== src/Tls/KeyExchange/Frames.antt =====
-- Messages of the key exchange as they go over a connection that delivers.
use mini_tls.Prelude.{
  ℕ, suc, ◌+◌, ◌≤◌, ◌≡◌, refl, subst, Option, some, List, ◌∷◌, ◌++◌, arith, length, length-append,
  take-append, drop-append,
}
use mini_tls.Tls.KeyExchange.{read_message, remaining_len, write_message}
use mini_tls.Tls.Transport.{Delivers, Transport, read_full-Link, write_full-Link}

module _ {C : Type 0} (t : Transport C) (d : Delivers t) where
  pub write_message-Link :
      (c : C) (out rest bytes : List ℕ) (serialized : Option (List ℕ))
      → serialized ≡ some bytes
      → d.Link c out rest
      → length out + length bytes ≤ d.limit
      → (c' : C) × (write_message t c serialized ≡ some c') × d.Link c' (out ++ bytes) rest
  unfolding write_message
  write_message-Link c out rest bytes serialized e v room =
      let w = write_full-Link t d (suc (length bytes)) c out rest bytes v (omega arith) room in
      (w.0, rw (e, w.1), w.2)

  -- A whole message is read, whatever follows it.
  pub read_message-Link :
      (c : C) (out body rest : List ℕ) (kind : ℕ)
      → remaining_len kind ≡ some (length body)
      → d.Link c out (kind ∷ (body ++ rest))
      → (c' : C) × (read_message t c ≡ some (c', kind ∷ body)) × d.Link c' out rest
  unfolding read_message
  read_message-Link c out body rest kind e v =
      let one =
        read_full-Link t d 2 1 c out (kind ∷ (body ++ rest)) v (omega arith) (omega arith) in
      let n = length body in
      let more =
        read_full-Link t d (suc n) n one.0 out (body ++ rest) one.2
          (omega (arith, length-append body rest)) (omega arith) in
      (
        more.0,
        rw (one.1, e, more.1, take-append n body rest refl),
        subst (d.Link more.0 out) (drop-append n body rest refl) more.2,
      )
