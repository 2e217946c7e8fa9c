-- ===== src/Tls/Records/Stream.antt =====
-- The text that one side writes in records, and the text that the other side reads.
use mini_tls.Prelude.{
  ℕ, ◌+◌, ◌^◌, ◌≤◌, ◌<◌, ◌≡◌, refl, sym, ap, ◌∙◌, subst, subst₂, inl, inr, Option, some, List, [],
  ◌∷◌, ◌++◌, append-nil, append_assoc, arith, ltb, ◌>>=◌, Bool-cases, ltb→lt, length, take, drop,
  length-append, length-take, take-append-drop, nil_of_length, All, put_uint32,
}
use mini_tls.Tls.Bytes.{get_nonce}
use mini_tls.Tls.Crypto.{Crypto, IsSound}
use mini_tls.Tls.KeyExchange.{TlsConn}
use mini_tls.Tls.Records.{next_seq, vtls_read, vtls_write}
use mini_tls.Tls.Records.Roundtrip.{vtls_read-Link, vtls_read_buffered, vtls_write-Link}
use mini_tls.Tls.Transport.{Delivers, Transport}

abbrev pub concat : List (List ℕ) → List ℕ
concat [] = []
concat (p ∷ ps) = p ++ concat ps

abbrev pub sum : List ℕ → ℕ
sum [] = 0
sum (n ∷ ns) = n + sum ns

-- What records of these texts take on the wire.
abbrev pub wire_size : List (List ℕ) → ℕ
wire_size [] = 0
wire_size (p ∷ ps) = length p + 20 + wire_size ps

module _ (x : Crypto) where
  -- The bytes on the wire are records of the texts, sealed under the key, one after the other, with
  -- the counter going up from one to the next.
  abbrev pub AreRecords : List ℕ → ℕ → List (List ℕ) → List ℕ → Type 0
  AreRecords key seq [] wire = wire ≡ []
  AreRecords key seq (p ∷ ps) wire =
      (s : List ℕ) × (more : List ℕ) × (x.aead_open key (get_nonce seq) s ≡ some p)
      × (length s ≡ length p + 16)
      × (length s < 2 ^ 32)
      × (wire ≡ put_uint32 (length s) ++ (s ++ more))
      × AreRecords key (next_seq seq) ps more

  module _ {C : Type 0} (t : Transport C) where
    -- A sequence of calls of `VTLSWrite`.
    unfoldable pub write_texts : TlsConn C → List (List ℕ) → Option (TlsConn C)
    write_texts c [] = some c
    write_texts c (p ∷ ps) = vtls_write t x c p >>= λ r. write_texts r.0 ps

    -- A sequence of calls of `VTLSRead`, with buffers of these sizes, and all that they give.
    pub read_texts : TlsConn C → List ℕ → Option (TlsConn C × List ℕ)
    read_texts c [] = some (c, [])
    read_texts c (n ∷ ns) = do
      first ← vtls_read t x c n
      rest ← read_texts first.0 ns
      some (rest.0, first.1 ++ rest.1)

    module _ (d : Delivers t) (v : IsSound x) where
      abbrev AreShort : List (List ℕ) → Type 0
      AreShort ps = All (λ p. length p + 16 < 2 ^ 32) ps

      -- On a connection that delivers, calls of `VTLSWrite` with texts that are not too long, whose
      -- records are within its limit, succeed and put records of their texts on the wire.
      pub write_texts-AreRecords :
          (c : TlsConn C) (ps : List (List ℕ)) (out rest : List ℕ)
          → length c.write_key ≡ 32
          → AreShort ps
          → d.Link c.tcp_conn out rest
          → length out + wire_size ps ≤ d.limit
          → (c' : TlsConn C) × (wire : List ℕ) × (write_texts c ps ≡ some c')
            × AreRecords c.write_key c.write_seq ps wire
            × d.Link c'.tcp_conn (out ++ wire) rest
      unfolding write_texts
      write_texts-AreRecords c [] out rest hk hs link room =
          (c, [], refl, refl, subst (λ l. d.Link c.tcp_conn l rest) (sym (append-nil out)) link)
      write_texts-AreRecords c (p ∷ ps) out rest hk hs link room =
          let w = vtls_write-Link x t d v c p out rest hk hs.0 link (omega (arith, room)) in
          let c1 = w.0 in
          let sealed = w.1 in
          let four = put_uint32 (length sealed) in
          let key : c1.write_key ≡ c.write_key = ap (λ k. k.write_key) w.6 in
          let seq : c1.write_seq ≡ next_seq c.write_seq = ap (λ k. k.write_seq) w.6 in
          let more =
            write_texts-AreRecords c1 ps ((out ++ four) ++ sealed) rest (ap length key ∙ hk) hs.1
              w.3
              (omega
                (arith, room, w.5, length-append (out ++ four) sealed, length-append out four)) in
          let wire = four ++ (sealed ++ more.1) in
          let assoc : ((out ++ four) ++ sealed) ++ more.1 ≡ out ++ wire =
            append_assoc (out ++ four) sealed more.1 ∙ append_assoc out four (sealed ++ more.1) in
          (
            more.0,
            wire,
            rw (w.2, more.2) refl,
            (
              sealed,
              more.1,
              w.4,
              w.5,
              omega (arith, w.5, hs.0),
              refl,
              subst₂ (λ k n. AreRecords k n ps more.1) key seq more.3,
            ),
            subst (λ l. d.Link more.0.tcp_conn l rest) assoc more.4,
          )

      -- A reader that has this text before it: left over, and in records on the wire.
      pub record Incoming (c : TlsConn C) (text : List ℕ) : Type 0 where
        pub texts : List (List ℕ)
        pub wire : List ℕ
        pub out : List ℕ
        pub rest : List ℕ
        pub records : AreRecords c.read_key c.read_seq texts wire
        pub link : d.Link c.tcp_conn out (wire ++ rest)
        pub is_text : text ≡ c.read_buf ++ concat texts

      -- What a read of `n` bytes does to the text.
      abbrev Reads : TlsConn C → ℕ → List ℕ → Type 0
      Reads c n text =
          (c' : TlsConn C) × (part left : List ℕ) × (vtls_read t x c n ≡ some (c', part))
          × (text ≡ part ++ left)
          × (length part ≤ n)
          × Incoming c' left

      read_left_over :
          (c : TlsConn C) (n : ℕ) (text : List ℕ)
          → Incoming c text
          → 0 < length c.read_buf
          → Reads c n text
      read_left_over c n text i h =
          let left = drop n c.read_buf ++ concat i.texts in
          (
            record c { read_buf = drop n c.read_buf },
            take n c.read_buf,
            left,
            vtls_read_buffered x t d v c n h,
            i.is_text
                ∙ ap (λ l. l ++ concat i.texts) (sym (take-append-drop n c.read_buf))
                ∙ append_assoc (take n c.read_buf) (drop n c.read_buf) (concat i.texts),
            omega (arith, length-take n c.read_buf),
            record {
              texts = i.texts;
              wire = i.wire;
              out = i.out;
              rest = i.rest;
              records = i.records;
              link = i.link;
              is_text = refl;
            },
          )

      read_next :
          (c : TlsConn C) (n : ℕ) (ps : List (List ℕ)) (wire out rest : List ℕ)
          → AreRecords c.read_key c.read_seq ps wire
          → d.Link c.tcp_conn out (wire ++ rest)
          → c.read_buf ≡ []
          → 0 < length (concat ps)
          → Reads c n (concat ps)
      read_next c n [] wire out rest a link nothing h = absurd (omega arith)
      read_next c n (p ∷ ps) wire out rest (sealed, more, opens, size, short, is, later) link
            nothing h =
          let four = put_uint32 (length sealed) in
          let assoc : wire ++ rest ≡ four ++ (sealed ++ (more ++ rest)) =
            ap (λ l. l ++ rest) is
            ∙ append_assoc four (sealed ++ more) rest
            ∙ ap (◌++◌ four) (append_assoc sealed more rest) in
          let r =
            vtls_read-Link x t d v c n p sealed out (more ++ rest) nothing size short opens
              (subst (d.Link c.tcp_conn out) assoc link) in
          (
            r.0,
            take n p,
            drop n p ++ concat ps,
            r.1,
            ap (λ l. l ++ concat ps) (sym (take-append-drop n p))
                ∙ append_assoc (take n p) (drop n p) (concat ps),
            omega (arith, length-take n p),
            record {
              texts = ps;
              wire = more;
              out = out;
              rest = rest;
              records = subst₂ (λ k m. AreRecords k m ps more) (sym r.4) (sym r.3) later;
              link = r.5;
              is_text = ap (λ l. l ++ concat ps) (sym r.2);
            },
          )

      read-Incoming :
          (c : TlsConn C) (n : ℕ) (text : List ℕ)
          → Incoming c text
          → 0 < length text
          → Reads c n text
      read-Incoming c n text i h = elim (Bool-cases (ltb 0 (length c.read_buf))) [
        | inl some_left ↦ read_left_over c n text i (ltb→lt 0 (length c.read_buf) some_left)
        | inr none_left ↦
            let nothing : c.read_buf ≡ [] = nil_of_length c.read_buf (ground arith) in
            let is : text ≡ concat i.texts = i.is_text ∙ ap (λ l. l ++ concat i.texts) nothing in
            subst (Reads c n) (sym is) (
              read_next c n i.texts i.wire i.out i.rest i.records i.link nothing
                (subst (λ l. 0 < length l) is h))
      ]

      -- On a connection that delivers, with a text before the reader, calls of `VTLSRead` with buffers
      -- that are not empty and no larger, together, than the text, succeed and give the first part of it,
      -- in order.
      pub read_texts-Incoming :
          (c : TlsConn C) (ns : List ℕ) (text : List ℕ)
          → Incoming c text
          → All (λ n. 0 < n) ns
          → sum ns ≤ length text
          → (c' : TlsConn C) × (out left : List ℕ) × (read_texts c ns ≡ some (c', out))
            × (text ≡ out ++ left)
            × Incoming c' left
      unfolding read_texts
      read_texts-Incoming c [] text i a h = (c, [], text, refl, refl, i)
      read_texts-Incoming c (n ∷ ns) text i a h =
          let first = read-Incoming c n text i (omega (arith, a.0)) in
          let len : length text ≡ length first.1 + length first.2 =
            ap length first.4 ∙ length-append first.1 first.2 in
          let more =
            read_texts-Incoming first.0 ns first.2 first.6 a.1 (omega (arith, len, first.5)) in
          (
            more.0,
            first.1 ++ more.1,
            more.2,
            rw (first.3, more.3) refl,
            first.4 ∙ ap (◌++◌ first.1) more.4 ∙ sym (append_assoc first.1 more.1 more.2),
            more.5,
          )
