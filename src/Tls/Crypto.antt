-- ===== src/Tls/Crypto.antt =====
-- The cryptography that pkg/tlsStack takes from Go's libraries, as a parameter, and crypto.go over
-- it: the shared secret, what is signed, and the keys that are derived.
use mini_tls.Prelude.{
  ℕ, ◌+◌, ◌<◌, ◌≡◌, refl, ap₂, inl, inr, Bool, true, false, not, ◌&&◌, Option, none, some, List, [],
  ◌∷◌, ◌++◌, arith, ◌==◌, if◌then◌else◌, ◌>>=◌, Bool-cases, ==→eq, ==_refl, ne→==, eq→==, length,
  take, drop, length-take, length-drop,
}
use mini_tls.Tls.Messages.{public_key_len, signature_len}

-- X25519, Ed25519, SHA-256, HKDF and AES-GCM. `none` is an error of the library.
pub record Crypto : Type 1 where
  pub Private : Type 0
  pub SignKey : Type 0
  pub VerifyKey : Type 0
  pub public_key : Private → List ℕ
  pub ecdh : Private → List ℕ → Option (List ℕ)
  pub sign : SignKey → List ℕ → List ℕ
  pub verify : VerifyKey → List ℕ → List ℕ → Bool
  pub verify_key : SignKey → VerifyKey
  pub sha256 : List ℕ → List ℕ
  pub hkdf : List ℕ → List ℕ → List ℕ → ℕ → Option (List ℕ)
  pub aead_seal : List ℕ → List ℕ → List ℕ → Option (List ℕ)
  pub aead_open : List ℕ → List ℕ → List ℕ → Option (List ℕ)

-- What the libraries document of honest use.
pub record IsSound (x : Crypto) : Type 0 where
  pub public_key_size : (a : x.Private) → length (x.public_key a) ≡ public_key_len
  pub ecdh_agrees :
      (a b : x.Private)
      → (z : List ℕ) × (x.ecdh a (x.public_key b) ≡ some z)
        × (x.ecdh b (x.public_key a) ≡ some z)
        × (0 < length z)
  pub sign_size : (k : x.SignKey) (m : List ℕ) → length (x.sign k m) ≡ signature_len
  pub verifies : (k : x.SignKey) (m : List ℕ) → x.verify (x.verify_key k) m (x.sign k m) ≡ true
  pub hkdf_size :
      (z salt info : List ℕ) → (m : List ℕ) × (x.hkdf z salt info 64 ≡ some m) × (length m ≡ 64)
  pub opens :
      (key nonce plain : List ℕ)
      → length key ≡ 32
      → length nonce ≡ 12
      → (sealed : List ℕ) × (x.aead_seal key nonce plain ≡ some sealed)
        × (length sealed ≡ length plain + 16)
        × (x.aead_open key nonce sealed ≡ some plain)

-- `bytes.Equal`
pub equal : List ℕ → List ℕ → Bool
equal [] [] = true
equal [] (y ∷ ys) = false
equal (x ∷ xs) [] = false
equal (x ∷ xs) (y ∷ ys) = (x == y) && equal xs ys

pub equal_refl : (xs : List ℕ) → equal xs xs ≡ true
unfolding equal
equal_refl [] = refl
equal_refl (x ∷ xs) = rw (==_refl x) (equal_refl xs)

pub equal→eq : (xs ys : List ℕ) → equal xs ys ≡ true → xs ≡ ys
unfolding equal
equal→eq [] [] h = refl
equal→eq [] (y ∷ ys) h = cc
equal→eq (x ∷ xs) [] h = cc
equal→eq (x ∷ xs) (y ∷ ys) h = elim (Bool-cases (x == y)) [
  | inl e ↦ ap₂ ◌∷◌ (==→eq x y e) (equal→eq xs ys cc)
  | inr e ↦ cc
]

-- The text "write keys".
abbrev write_keys : List ℕ
write_keys = 119 ∷ 114 ∷ 105 ∷ 116 ∷ 101 ∷ 32 ∷ 107 ∷ 101 ∷ 121 ∷ 115 ∷ []

-- `ServerSignedDHPublicValues` and `UserSignedDHPublicValues`
abbrev pub server_signed : List ℕ → List ℕ → List ℕ
server_signed server_dh user_dh = server_dh ++ user_dh

abbrev pub user_signed : List ℕ → List ℕ → List ℕ
user_signed user_dh server_dh = user_dh ++ server_dh

module _ (x : Crypto) where
  -- `ComputeSharedSecret`
  pub compute_shared_secret : x.Private → List ℕ → Option (List ℕ)
  compute_shared_secret priv peer =
      if not (length peer == public_key_len) then none else x.ecdh priv peer

  -- `DeriveWriteKeys`: the client's key and the server's.
  pub derive_write_keys : List ℕ → List ℕ → List ℕ → Option (List ℕ × List ℕ)
  derive_write_keys secret user_dh server_dh =
      if length secret == 0
      then none
      else if not (length user_dh == public_key_len)
      then none
      else if not (length server_dh == public_key_len)
      then none
      else do
        material ← x.hkdf secret (x.sha256 (user_dh ++ server_dh)) write_keys 64
        some (take 32 material, drop 32 material)

  -- The two sides of an exchange derive the same two keys.
  pub keys_agree :
      (v : IsSound x) (a b : x.Private)
      → (z : List ℕ) × (k k' : List ℕ) × (compute_shared_secret a (x.public_key b) ≡ some z)
        × (compute_shared_secret b (x.public_key a) ≡ some z)
        × (derive_write_keys z (x.public_key a) (x.public_key b) ≡ some (k, k'))
        × (length k ≡ 32)
        × (length k' ≡ 32)
  unfolding compute_shared_secret derive_write_keys
  keys_agree v a b =
      let ua = x.public_key a in
      let ub = x.public_key b in
      let la = eq→== (length ua) 32 (v.public_key_size a) in
      let lb = eq→== (length ub) 32 (v.public_key_size b) in
      let e = v.ecdh_agrees a b in
      let m = v.hkdf_size e.0 (x.sha256 (ua ++ ub)) write_keys in
      (
        e.0,
        take 32 m.0,
        drop 32 m.0,
        rw lb e.1,
        rw la e.2,
        rw (ne→== (length e.0) 0 (λ q. absurd (omega (arith, q, e.3))), la, lb, m.1),
        omega (arith, length-take 32 m.0, m.2),
        omega (arith, length-drop 32 m.0, m.2),
      )
