-- ===== src/Tls/Bytes.antt =====
-- `getNonce` of pkg/tlsStack/doTls.go.
use mini_tls.Prelude.{ℕ, ◌+◌, ◌*◌, ◌^◌, ◌<◌, ◌≡◌, sym, ap, ◌∙◌, List, [], ◌∷◌, arith, big_endian}

-- `getNonce`
abbrev pub get_nonce : ℕ → List ℕ
get_nonce seq = 0 ∷ 0 ∷ 0 ∷ 0 ∷ big_endian 8 seq

-- What eight bytes say.
value : List ℕ → ℕ → ℕ
value [] acc = acc
value (b ∷ bs) acc = value bs (acc * 256 + b)

value-get_nonce : (n : ℕ) → n < 2 ^ 64 → value (get_nonce n) 0 ≡ n
unfolding value
value-get_nonce n h = omega arith

-- Two counters below 2 ^ 64 with the same nonce are the same.
pub get_nonce_injective : (m n : ℕ) → m < 2 ^ 64 → n < 2 ^ 64 → get_nonce m ≡ get_nonce n → m ≡ n
get_nonce_injective m n hm hn e =
    sym (value-get_nonce m hm) ∙ ap (λ l. value l 0) e ∙ value-get_nonce n hn
