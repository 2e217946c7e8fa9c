-- ===== src/Rip/Messages.antt =====
-- `Marshal` and `DeserializeRipMessage` of pkg/ipStack/rip.go.
pub mod Roundtrip
use mini_tls.Ip.Prefix.{cidr_mask, mask_size}
use mini_tls.Ip.Types.{RipEntry, RipMessage}
use mini_tls.Prelude.{
  ℕ, zero, suc, ◌+◌, ◌*◌, ◌%◌, ◌^◌, ◌≡◌, ◌⊎◌, Option, none, some, List, [], ◌∷◌, ◌++◌, ◌==◌,
  if◌then◌else◌, ◌>>=◌, length, big_endian, put_uint32, uint32,
}

abbrev pub rip_request : ℕ
rip_request = 1

abbrev pub rip_response : ℕ
rip_response = 2

-- An entry of a message.
abbrev pub Told : RipEntry → List RipEntry → Type 0
Told r [] = ⊥
Told r (x ∷ xs) = (r ≡ x) ⊎ Told r xs

-- `binary.Write` of a uint16 and of a uint32.
abbrev pub put_uint16 : ℕ → List ℕ
put_uint16 n = big_endian 2 n

-- The twelve bytes of an entry: cost, address and mask.
unfoldable pub marshal_entry : RipEntry → List ℕ
marshal_entry e =
    put_uint32 e.cost ++ (put_uint32 e.prefix.addr ++ put_uint32 (cidr_mask e.prefix.bits))

unfoldable pub marshal_entries : List RipEntry → List ℕ
marshal_entries [] = []
marshal_entries (e ∷ es) = marshal_entry e ++ marshal_entries es

-- `Marshal`. The number of entries is that of the list; the field is not looked at.
unfoldable pub marshal : RipMessage → List ℕ
marshal m =
    put_uint16 m.command ++ (put_uint16 (length m.entries % 2 ^ 16) ++ marshal_entries m.entries)

-- `binary.Read` of a uint16 and of a uint32; `none` is its error at the end of the bytes.
unfoldable pub read_uint16 : List ℕ → Option (ℕ × List ℕ)
read_uint16 (a ∷ b ∷ rest) = some (a * 256 + b, rest)
read_uint16 _ = none

unfoldable pub read_uint32 : List ℕ → Option (ℕ × List ℕ)
read_uint32 (a ∷ b ∷ c ∷ d ∷ rest) = some (uint32 (a ∷ b ∷ c ∷ d ∷ []), rest)
read_uint32 _ = none

-- A round of the loop of `DeserializeRipMessage`.
unfoldable pub read_entry : List ℕ → Option (RipEntry × List ℕ)
read_entry bytes = do
  cost ← read_uint32 bytes
  addr ← read_uint32 (cost.1)
  mask ← read_uint32 (addr.1)
  some
      (record { cost = cost.0; prefix = record { addr = addr.0; bits = mask_size mask.0 } }, mask.1)

unfoldable pub read_entries : ℕ → List ℕ → Option (List RipEntry)
read_entries zero bytes = some []
read_entries (suc n) bytes = do e ← read_entry bytes; es ← read_entries n (e.1); some (e.0 ∷ es)

-- The number of entries and the entries.
unfoldable pub read_body : ℕ → List ℕ → Option RipMessage
read_body command bytes = do
  num_entries ← read_uint16 bytes
  entries ← read_entries num_entries.0 num_entries.1
  some (record { command = command; num_entries = 0; entries = entries })

-- `DeserializeRipMessage`. A request ends at its command, and bytes behind the entries are not looked
-- at. The field for the number of entries stays 0.
unfoldable pub deserialize_rip_message : List ℕ → Option RipMessage
deserialize_rip_message bytes = do
  command ← read_uint16 bytes
  if command.0 == rip_request
      then some (record { command = command.0; num_entries = 0; entries = [] })
      else read_body command.0 command.1
