-- ===== src/Tls/Messages/Roundtrip.antt =====
-- The encoding of the messages of the key exchange is one to one.
use mini_tls.Prelude.{
  ◌↔◌, ℕ, ◌<◌, ◌≡◌, refl, sym, ap, ap₂, ◌∙◌, subst, true, some, List, [], ◌∷◌, ◌++◌, arith, ◌==◌,
  ==→eq, ==_refl, >>=-eq-some, eq→==, if-eq-some, guard-eq-some, length, get_or, take, drop,
  length-append, length-take, length-drop, drop-drop, take_add, take-length, take-append,
  drop-append,
}
use mini_tls.Tls.Messages.{
  ServerValue, UserSignature, UserValue, deserialize_server_value, deserialize_user_signature,
  deserialize_user_value, joined, parted, serialize_server_value, serialize_user_signature,
  serialize_user_value,
}

-- Three parts in a row are found again by their lengths.
parts_of :
    (k : ℕ) (a b s : List ℕ)
    → length a ≡ 32
    → length b ≡ 32
    → length s ≡ 64
    → let bytes = k ∷ (a ++ (b ++ s)) in
      (take 32 (drop 1 bytes) ≡ a) × (take 32 (drop 33 bytes) ≡ b) × (take 64 (drop 65 bytes) ≡ s)
parts_of k a b s ha hb hs =
    let behind_a : drop 32 (a ++ (b ++ s)) ≡ b ++ s = drop-append 32 a (b ++ s) ha in
    (
      take-append 32 a (b ++ s) ha,
      ap (take 32) behind_a ∙ take-append 32 b s hb,
      ap (take 64)
            (sym (drop-drop 32 32 (a ++ (b ++ s))) ∙ ap (drop 32) behind_a ∙ drop-append 32 b s hb)
          ∙ take-length 64 s (omega arith),
    )

pub parted-joined :
    (kind : ℕ) (a b s bytes : List ℕ)
    → joined kind a b s ≡ some bytes
    → parted kind bytes ≡ some (a, b, s)
parted-joined kind a b s bytes e =
    let whole = kind ∷ (a ++ (b ++ s)) in
    let made = if-eq-some _ whole e in
    let good = made.0 in
    let ha : length a ≡ 32 = ground arith in
    let hb : length b ≡ 32 = ground arith in
    let hs : length s ≡ 64 = ground arith in
    let p = parts_of kind a b s ha hb hs in
    let len : (length whole == 129) ≡ true =
      eq→== (length whole) 129
        (omega (arith, length-append a (b ++ s), length-append b s, ha, hb, hs)) in
    ap (parted kind) (sym made.1) ∙ rw (len, ==_refl kind, p.0, p.1, p.2)

headed : (bytes : List ℕ) → 0 < length bytes → bytes ≡ get_or bytes 0 0 ∷ drop 1 bytes
headed [] h = absurd (omega arith)
headed (b ∷ bytes) h = refl

-- The parts of 129 bytes make them up again.
rejoined :
    (bytes : List ℕ)
    → length bytes ≡ 129
    → bytes
      ≡ get_or bytes 0 0
        ∷ (take 32 (drop 1 bytes) ++ (take 32 (drop 33 bytes) ++ take 64 (drop 65 bytes)))
rejoined bytes h =
    let tail = drop 1 bytes in
    let behind : take 32 (drop 33 bytes) ++ take 64 (drop 65 bytes) ≡ take 96 (drop 33 bytes) =
      ap (λ l. take 32 (drop 33 bytes) ++ take 64 l) (sym (drop-drop 33 32 bytes))
      ∙ take_add 32 64 (drop 33 bytes) in
    let all : take 32 tail ++ take 96 (drop 33 bytes) ≡ tail =
      ap (λ l. take 32 tail ++ take 96 l) (sym (drop-drop 1 32 bytes))
      ∙ take_add 32 96 tail
      ∙ take-length 128 tail (omega (arith, length-drop 1 bytes)) in
    headed bytes (omega arith)
    ∙ ap (◌∷◌ (get_or bytes 0 0)) (sym (ap (◌++◌ (take 32 tail)) behind ∙ all))

-- What a message with three parts was parted into makes it up again.
pub joined-parted :
    (kind : ℕ) (a b s bytes : List ℕ)
    → parted kind bytes ≡ some (a, b, s)
    → joined kind a b s ≡ some bytes
joined-parted kind a b s bytes e =
    let long = guard-eq-some (length bytes == 129) _ e in
    let same = guard-eq-some (get_or bytes 0 0 == kind) _ long.1 in
    let len : length bytes ≡ 129 = ==→eq (length bytes) 129 long.0 in
    let first : get_or bytes 0 0 ≡ kind = ==→eq (get_or bytes 0 0) kind same.0 in
    let is_a : take 32 (drop 1 bytes) ≡ a = cc same.1 in
    let is_b : take 32 (drop 33 bytes) ≡ b = cc same.1 in
    let is_s : take 64 (drop 65 bytes) ≡ s = cc same.1 in
    let la : length a ≡ 32 =
      ap length (sym is_a) ∙ omega (arith, length-take 32 (drop 1 bytes), length-drop 1 bytes) in
    let lb : length b ≡ 32 =
      ap length (sym is_b) ∙ omega (arith, length-take 32 (drop 33 bytes), length-drop 33 bytes) in
    let ls : length s ≡ 64 =
      ap length (sym is_s) ∙ omega (arith, length-take 64 (drop 65 bytes), length-drop 65 bytes) in
    rw (eq→== (length a) 32 la, eq→== (length b) 32 lb, eq→== (length s) 64 ls)
      (ap some (sym (rejoined bytes len ∙ ap₂ ◌∷◌ first (ap₂ ◌++◌ is_a (ap₂ ◌++◌ is_b is_s)))))

user_value :
    (v bytes : List ℕ)
    → serialize_user_value (record { user_dh = v }) ≡ some bytes
    → deserialize_user_value bytes ≡ some (record { user_dh = v })
unfolding serialize_user_value deserialize_user_value
user_value v bytes e =
    let made = if-eq-some _ (1 ∷ v) e in
    let hv : length v ≡ 32 = ground (arith, made.0) in
    let len : (length (1 ∷ v) == 33) ≡ true = eq→== (length (1 ∷ v)) 33 (omega (arith, hv)) in
    ap deserialize_user_value (sym made.1) ∙ rw (len, take-length 32 v (omega (arith, hv)))

-- Reading back what a message was written as gives the message, for each of the three messages.
pub deserialize-serialize :
    ((m : UserValue) (bytes : List ℕ)
      → serialize_user_value m ≡ some bytes
      → deserialize_user_value bytes ≡ some m)
    × ((m : ServerValue) (bytes : List ℕ)
        → serialize_server_value m ≡ some bytes
        → deserialize_server_value bytes ≡ some m)
    × ((m : UserSignature) (bytes : List ℕ)
        → serialize_user_signature m ≡ some bytes
        → deserialize_user_signature bytes ≡ some m)
unfolding serialize_user_value serialize_server_value serialize_user_signature
    deserialize_user_value deserialize_server_value deserialize_user_signature
deserialize-serialize = (
  λ m. user_value m.user_dh,
  λ m bytes e. rw (parted-joined 2 m.server_dh m.user_dh m.server_signature bytes e) refl,
  λ m bytes e. rw (parted-joined 3 m.user_dh m.server_dh m.user_signature bytes e) refl,
)

serialized_user_value :
    (m : UserValue) (bytes : List ℕ)
    → deserialize_user_value bytes ≡ some m
    → serialize_user_value m ≡ some bytes
unfolding serialize_user_value deserialize_user_value
serialized_user_value m bytes e =
    let long = guard-eq-some (length bytes == 33) _ e in
    let same = guard-eq-some (get_or bytes 0 0 == 1) _ long.1 in
    let len : length bytes ≡ 33 = ==→eq (length bytes) 33 long.0 in
    let first : get_or bytes 0 0 ≡ 1 = ==→eq (get_or bytes 0 0) 1 same.0 in
    let is_m : record { user_dh = take 32 (drop 1 bytes) } ≡ m = cc same.1 in
    let is : take 32 (drop 1 bytes) ≡ m.user_dh = ap (λ k. k.user_dh) is_m in
    let behind : take 32 (drop 1 bytes) ≡ drop 1 bytes =
      take-length 32 (drop 1 bytes) (omega (arith, len, length-drop 1 bytes)) in
    let size : length m.user_dh ≡ 32 =
      ap length (sym is) ∙ omega (arith, len, length-take 32 (drop 1 bytes), length-drop 1 bytes) in
    rw (eq→== (length m.user_dh) 32 size)
      (ap some (sym (headed bytes (omega arith) ∙ ap₂ ◌∷◌ first (sym behind ∙ is))))

-- Only what a message is written as is read back, for each of the three messages.
serialize-deserialize :
    ((m : UserValue) (bytes : List ℕ)
      → deserialize_user_value bytes ≡ some m
      → serialize_user_value m ≡ some bytes)
    × ((m : ServerValue) (bytes : List ℕ)
        → deserialize_server_value bytes ≡ some m
        → serialize_server_value m ≡ some bytes)
    × ((m : UserSignature) (bytes : List ℕ)
        → deserialize_user_signature bytes ≡ some m
        → serialize_user_signature m ≡ some bytes)
unfolding serialize_server_value serialize_user_signature deserialize_server_value
    deserialize_user_signature
serialize-deserialize = (
  serialized_user_value,
  (λ m bytes e.
      let r = >>=-eq-some (parted 2 bytes) _ e in
      let is : record { server_dh = r.0.0; user_dh = r.0.1; server_signature = r.0.2 } ≡ m =
        cc r.2 in
      subst (λ k. joined 2 k.server_dh k.user_dh k.server_signature ≡ some bytes) is
        (joined-parted 2 r.0.0 r.0.1 r.0.2 bytes r.1)),
  λ m bytes e.
      let r = >>=-eq-some (parted 3 bytes) _ e in
      let is : record { user_dh = r.0.0; server_dh = r.0.1; user_signature = r.0.2 } ≡ m = cc r.2 in
      subst (λ k. joined 3 k.user_dh k.server_dh k.user_signature ≡ some bytes) is
        (joined-parted 3 r.0.0 r.0.1 r.0.2 bytes r.1),
)

-- Each of the three messages of the key exchange is written as some bytes exactly if these bytes are
-- read back as it.
pub messages_roundtrip :
    (user : UserValue) (server : ServerValue) (signature : UserSignature) (bytes : List ℕ)
    → ((serialize_user_value user ≡ some bytes) ↔ (deserialize_user_value bytes ≡ some user))
      × ((serialize_server_value server ≡ some bytes)
          ↔ (deserialize_server_value bytes ≡ some server))
      × ((serialize_user_signature signature ≡ some bytes)
          ↔ (deserialize_user_signature bytes ≡ some signature))
messages_roundtrip user server signature bytes = (
  (deserialize-serialize.0 user bytes, serialize-deserialize.0 user bytes),
  (deserialize-serialize.1 server bytes, serialize-deserialize.1 server bytes),
  (deserialize-serialize.2 signature bytes, serialize-deserialize.2 signature bytes),
)
