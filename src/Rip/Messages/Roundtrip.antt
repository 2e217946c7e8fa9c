-- ===== src/Rip/Messages/Roundtrip.antt =====
-- A message is read back as it was written.
use mini_tls.Ip.Prefix.{cidr_mask}
use mini_tls.Ip.Prefix.Masks.{cidr_mask_bound, mask_size-cidr_mask}
use mini_tls.Ip.Types.{RipEntry, RipMessage}
use mini_tls.Prelude.{
  ℕ, ◌+◌, ◌*◌, ◌/◌, ◌%◌, ◌^◌, ◌≤◌, ◌<◌, ◌≡◌, refl, ap, inl, inr, some, List, [], ◌∷◌, ◌++◌,
  append_assoc, arith, ◌==◌, if◌then◌else◌, Bool-cases, length, All, put_uint32, uint32-put_uint32,
}
use mini_tls.Rip.Messages.{
  deserialize_rip_message, marshal, marshal_entries, marshal_entry, put_uint16, read_body,
  read_entries, read_entry, read_uint16, read_uint32, rip_request,
}

-- The fields of an entry fit: a cost of 32 bits and a prefix of IPv4.
pub record Fits (e : RipEntry) : Type 0 where
  pub cost : e.cost < 256 ^ 4
  pub addr : e.prefix.addr < 256 ^ 4
  pub bits : e.prefix.bits ≤ 32

read_uint16-put_uint16 :
    (n : ℕ) (rest : List ℕ) → n < 256 ^ 2 → read_uint16 (put_uint16 n ++ rest) ≡ some (n, rest)
unfolding read_uint16
read_uint16-put_uint16 n rest h =
    let e : n / 256 ^ 1 % 256 * 256 + n / 256 ^ 0 % 256 ≡ n = omega arith in
    ap (λ x. some (x, rest)) e

read_uint32-put_uint32 :
    (n : ℕ) (rest : List ℕ) → n < 256 ^ 4 → read_uint32 (put_uint32 n ++ rest) ≡ some (n, rest)
unfolding read_uint32
read_uint32-put_uint32 n rest h = ap (λ x. some (x, rest)) (uint32-put_uint32 n h)

read_entry-marshal_entry :
    (e : RipEntry) (rest : List ℕ) → Fits e → read_entry (marshal_entry e ++ rest) ≡ some (e, rest)
unfolding read_entry marshal_entry
read_entry-marshal_entry e rest f =
    let a = put_uint32 e.cost in
    let b = put_uint32 e.prefix.addr in
    let c = put_uint32 (cidr_mask e.prefix.bits) in
    rw (append_assoc a (b ++ c) rest) (
      rw (append_assoc b c rest) (
        rw (read_uint32-put_uint32 e.cost (b ++ (c ++ rest)) f.cost) (
          rw (read_uint32-put_uint32 e.prefix.addr (c ++ rest) f.addr) (
            rw (read_uint32-put_uint32 (cidr_mask e.prefix.bits) rest (cidr_mask_bound _ f.bits))
              (rw (mask_size-cidr_mask e.prefix.bits f.bits) refl)))))

read_entries-marshal_entries :
    (es : List RipEntry) (rest : List ℕ)
    → All Fits es
    → read_entries (length es) (marshal_entries es ++ rest) ≡ some es
unfolding read_entries marshal_entries
read_entries-marshal_entries [] rest f = refl
read_entries-marshal_entries (e ∷ es) rest f =
    rw (append_assoc (marshal_entry e) (marshal_entries es) rest) (
      rw (read_entry-marshal_entry e (marshal_entries es ++ rest) f.0)
        (rw (read_entries-marshal_entries es rest f.1) refl))

-- A message that is not a request is read back as it was written, whatever follows it, but for the
-- field that `Marshal` does not look at. A request is read back without its entries.
pub deserialize-marshal :
    (m : RipMessage) (rest : List ℕ)
    → m.command < 2 ^ 16
    → length m.entries < 2 ^ 16
    → All Fits m.entries
    → deserialize_rip_message (marshal m ++ rest)
      ≡ some (record m {
        num_entries = 0;
        entries = if m.command == rip_request then [] else m.entries;
      })
unfolding deserialize_rip_message marshal read_body
deserialize-marshal m rest c n f =
    let count : length m.entries % 2 ^ 16 ≡ length m.entries = omega arith in
    let body = marshal_entries m.entries in
    let number = put_uint16 (length m.entries % 2 ^ 16) in
    rw (append_assoc (put_uint16 m.command) (number ++ body) rest) (
      rw (read_uint16-put_uint16 m.command ((number ++ body) ++ rest) c)
        (elim (Bool-cases (m.command == rip_request)) [
          | inl request ↦ rw request refl
          | inr response ↦ rw response (
              rw (append_assoc number body rest) (
                rw count (
                  rw (read_uint16-put_uint16 (length m.entries) (body ++ rest) n)
                    (rw (read_entries-marshal_entries m.entries rest f) refl))))
        ]))
