-- ===== src/Framing/Chunks.antt =====
-- A message that comes in chunks: a call of `getMessageSize` after each of them.
use qbm_pgsql.Prelude.{
  ℕ, zero, suc, ◌+◌, ◌≤◌, ◌<◌, ◌≡◌, refl, sym, ap, ◌∙◌, ◌⊎◌, inl, inr, true, false, List, [], ◌∷◌,
  ◌++◌, ltb, leb, ◌==◌, if◌then◌else◌, length, take, Result, ok, arith, length-append, take-append,
  append_assoc, ltb→lt, ◌>>=◌, Bool-cases,
}
use qbm_pgsql.Wire.{Host}
use qbm_pgsql.Framing.{Protocol, fresh, get_message_size}
use qbm_pgsql.Framing.Step.{header, after, reported, get_message_size-header, length-header}

abbrev pub concat : List (List ℕ) → List ℕ
concat [] = []
concat (c ∷ cs) = c ++ concat cs

-- What precedes the end of `xs` where `xs ++ ys` starts with `hd`.
split_prefix :
    (hd xs ys zs : List ℕ)
    → xs ++ ys ≡ hd ++ zs
    → length hd ≤ length xs
    → (mid : List ℕ) × (xs ≡ hd ++ mid) × (mid ++ ys ≡ zs)
split_prefix [] xs ys zs e h = (xs, refl, e)
split_prefix (a ∷ hd) [] ys zs e h = absurd (omega arith)
split_prefix (a ∷ hd) (x ∷ xs) ys zs e h =
    let (mid, p, q) = split_prefix hd xs ys zs (ground arith) (omega arith) in
    (mid, ground arith, q)

take_whole : (b : ℕ) (xs : List ℕ) → length xs ≤ b → take b xs ≡ xs
take_whole zero [] h = refl
take_whole zero (x ∷ xs) h = absurd (omega arith)
take_whole (suc b) [] h = refl
take_whole (suc b) (x ∷ xs) h = ap (◌∷◌ x) (take_whole b xs (omega arith))

-- The first `b` bytes of what has come of the body.
leb→gt : (a b : ℕ) → leb a b ≡ false → b < a
leb→gt a b h = ground arith

leb→le : (a b : ℕ) → leb a b ≡ true → a ≤ b
leb→le a b h = ground arith

ltb→ge : (a b : ℕ) → ltb a b ≡ false → b ≤ a
ltb→ge a b h = ground arith

append_cancel : (xs ys zs : List ℕ) → xs ++ ys ≡ xs ++ zs → ys ≡ zs
append_cancel [] ys zs e = e
append_cancel (x ∷ xs) ys zs e = append_cancel xs ys zs (ground arith)

take_body :
    (xs ys body rest : List ℕ)
    → xs ++ ys ≡ body ++ rest
    → length body ≤ length xs
    → take (length body) xs ≡ body
take_body xs ys body rest e h =
    let (mid, p, q) = split_prefix body xs ys rest e h in
    rw p (take-append (length body) body mid refl)

module _ ⦃h : Host⦄ where
  -- The calls after each chunk, up to the one that reports a message.
  pub receive : Protocol → List ℕ → List (List ℕ) → Result (ℕ × Protocol)
  receive p input [] = ok (0, p)
  receive p input (c ∷ cs) = get_message_size p (input ++ c) >>= λ (n, p').
      if n == 0 then receive p' (input ++ c) cs else ok (n, p')

  get_message_size_short :
      (p : Protocol) (input : List ℕ)
      → ltb (length input) 5 ≡ true
      → get_message_size p input ≡ ok (0, p)
  unfolding get_message_size
  get_message_size_short p input e = rw e

  module _ (t : ℕ) (body rest : List ℕ) (fits : length body < 4294967292) where
    abbrev Between : Protocol → List ℕ → Type 0
    Between p input =
        ((length input < 5) × (p ≡ fresh))
        ⊎ ((avail : List ℕ) × (input ≡ header t (length body) ++ avail)
            × (length avail < length body)
            × (p ≡ after (header t (length body)) avail))

    abbrev Outcome : Protocol → List ℕ → Type 0
    Outcome p input =
        ((p' : Protocol) × (get_message_size p input ≡ ok (0, p')) × Between p' input)
        ⊎ (get_message_size p input ≡ ok (5 + length body, after (header t (length body)) body))

    call_avail :
        (p : Protocol) (input avail more : List ℕ)
        → input ≡ header t (length body) ++ avail
        → avail ++ more ≡ body ++ rest
        → get_message_size p input
          ≡ ok (
            reported (length body) avail,
            after (header t (length body)) (take (length body) avail),
          )
        → Outcome p input
    call_avail p input avail more i e g = elim (Bool-cases (leb (length body) (length avail))) [
      | inl whole ↦ inr (g ∙ rw (whole, take_body avail more body rest e (leb→le _ _ whole)))
      | inr short ↦ inl (
        after (header t (length body)) avail,
        g
            ∙ rw (
              short,
              take_whole (length body) avail
                  (omega (arith, leb→gt (length body) (length avail) short)),
            ),
        inr (avail, i, leb→gt (length body) (length avail) short, refl),
      )
    ]

    call_step :
        (p : Protocol) (input c more : List ℕ)
        → (input ++ c) ++ more ≡ header t (length body) ++ (body ++ rest)
        → length (input ++ c) < 9223372036854775808
        → Between p input
        → Outcome p (input ++ c)
    call_step p input c more e r (inl (short, f)) =
        elim (Bool-cases (ltb (length (input ++ c)) 5)) [
          | inl few ↦ inl (p, get_message_size_short p (input ++ c) few, inl (ltb→lt _ _ few, f))
          | inr more_bytes ↦
              let (avail, i, q) =
                split_prefix (header t (length body)) (input ++ c) more (body ++ rest) e (
                  omega (
                    arith,
                    length-header t (length body),
                    ltb→ge (length (input ++ c)) 5 more_bytes,
                  )) in
              call_avail p (input ++ c) avail more i q
                (rw i (get_message_size-header t (length body) [] avail p fits (rw i at r) (inl f)))
        ]
    call_step p input c more e r (inr (avail, i, le, f)) =
        let hd = header t (length body) in
        let i' : input ++ c ≡ hd ++ (avail ++ c) = rw i (append_assoc hd avail c) in
        call_avail p (input ++ c) (avail ++ c) more i'
          (append_cancel hd ((avail ++ c) ++ more) (body ++ rest)
            (sym (append_assoc hd (avail ++ c) more) ∙ rw i' at e))
          (rw i' (
            get_message_size-header t (length body) avail c p fits (rw i' at r)
              (inr (omega arith, f))))

    receive-Between :
        (cs : List (List ℕ)) (p : Protocol) (input : List ℕ)
        → input ++ concat cs ≡ header t (length body) ++ (body ++ rest)
        → length (input ++ concat cs) < 9223372036854775808
        → Between p input
        → receive p input cs ≡ ok (5 + length body, after (header t (length body)) body)
    unfolding receive
    receive-Between [] p input e r w = absurd (ended w)
      where
        total : length input ≡ 5 + (length body + length rest)
        total = omega (
          arith,
          ap length e,
          length-append input [],
          length-append (header t (length body)) (body ++ rest),
          length-append body rest,
          length-header t (length body),
        )

        ended : Between p input → ⊥
        ended (inl (short, f)) = omega (arith, total)
        ended (inr (avail, i, le, f)) = omega (
          arith,
          total,
          ap length i,
          length-append (header t (length body)) avail,
          length-header t (length body),
        )
    receive-Between (c ∷ cs) p input e r w =
        let e' = append_assoc input c (concat cs) in
        elim (call_step p input c (concat cs) (e' ∙ e)
          (omega (arith, length-append (input ++ c) (concat cs), ap length e')) w) [
            | inl (p', g, w') ↦
                rw g (receive-Between cs p' (input ++ c) (e' ∙ e) (omega (arith, ap length e')) w')
            | inr g ↦ rw g (ground arith)
          ]

  -- A message of fewer than 2 ^ 32 - 4 bytes of body, and what follows it, come in any chunks from
  -- the start of the stream, fewer than 2 ^ 63 bytes in all: the calls report nothing until it is
  -- whole, and then its size, the protocol holding exactly its bytes.
  pub receive_any_chunks :
      (t : ℕ) (body rest : List ℕ) (chunks : List (List ℕ))
      → length body < 4294967292
      → concat chunks ≡ header t (length body) ++ (body ++ rest)
      → length (concat chunks) < 9223372036854775808
      → receive fresh [] chunks ≡ ok (5 + length body, after (header t (length body)) body)
  receive_any_chunks t body rest chunks fits e r =
      receive-Between t body rest fits chunks fresh [] e r (inl (omega arith, refl))
