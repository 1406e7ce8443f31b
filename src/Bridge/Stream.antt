-- ===== src/Bridge/Stream.antt =====
-- src/infrastructure/codex-bridge/protocol.ts: what the frame decoder promises, byte by byte, and
-- that `push` keeps it, however the bytes are cut into chunks.
use pi_codex_adaptor.Prelude.{
  ℕ, ◌+◌, Bool, true, false, not, ◌&&◌, ◌≡◌, refl, sym, ap, ◌∙◌, ◌⊎◌, Option, List, [], ◌∷◌, ◌++◌,
  ◌==◌, length, arith, inl, inr, Bool-cases, if◌then◌else◌,
}
use mathlib.Core.List.{append-nil, append_assoc}
use pi_codex_adaptor.Bridge.Frames.{
  ErrorCode, frame_too_large, ends_with, Decoded, decoded, refused, decode_server_frame, Decoder,
  new_decoder, appended, too_large, exceeds, append, joined, Pushed, messages, thrown, scan, push,
  with_part,
}

-- What reading a stream comes to: the messages and the bytes of an open frame, or an error.
pub data Read {ℓ} (V : Type ℓ) : Type ℓ where
  read : List V → List ℕ → Read V
  failed : ErrorCode → Read V

pub length-append {ℓ} : {A : Type ℓ} (xs ys : List A) → length (xs ++ ys) ≡ length xs + length ys
length-append [] ys = omega arith
length-append (x ∷ xs) ys = omega (arith, length-append xs ys)

pub ends_with-append :
    (c x : ℕ) (xs ys : List ℕ) → ends_with c (xs ++ x ∷ ys) ≡ ends_with c (x ∷ ys)
unfolding ends_with
ends_with-append c x [] ys = refl
ends_with-append c x (y ∷ []) ys = refl
ends_with-append c x (y ∷ z ∷ xs) ys = ends_with-append c x (z ∷ xs) ys

pub joined-snoc :
    (parts : List (List ℕ)) (part : List ℕ) → joined (parts ++ part ∷ []) ≡ joined parts ++ part
joined-snoc [] part = append-nil part
joined-snoc (p ∷ parts) part =
    ap (λ r. p ++ r) (joined-snoc parts part) ∙ sym (append_assoc p (joined parts) part)

Decoded-cases {ℓ} :
    {V : Type ℓ} (d : Decoded V)
    → ((code : ErrorCode) × (d ≡ refused code)) ⊎ ((v : V) × (d ≡ decoded v))
Decoded-cases (refused code) = inl (code, refl)
Decoded-cases (decoded v) = inr (v, refl)

-- Bytes that no frame may hold before its line feed.
abbrev pub over : List ℕ → Bool
over buffer = exceeds (length buffer) buffer

module _ {ℓ} {V : Type ℓ} where
  abbrev pub prepend : List V → Read V → Read V
  prepend vs (failed code) = failed code
  prepend vs (read ws rest) = read (vs ++ ws) rest

  prepend-nil : (r : Read V) → prepend [] r ≡ r
  prepend-nil (failed code) = refl
  prepend-nil (read ws rest) = refl

  prepend-append : (us vs : List V) (r : Read V) → prepend (us ++ vs) r ≡ prepend us (prepend vs r)
  prepend-append us vs (failed code) = refl
  prepend-append us vs (read ws rest) = ap (λ l. read l rest) (append_assoc us vs ws)

  -- The messages of a result, and the bytes that the decoder keeps.
  abbrev pub read_of : Decoder × Pushed V → Read V
  read_of (d, messages vs) = read vs (joined d.chunks)
  read_of (d, thrown code) = failed code

module _ {ℓ} {V : Type ℓ} (parse : List ℕ → Option V) where
  -- The reference reader: one byte at a time.
  unfoldable pub feed : List ℕ → List ℕ → Read V
  feed buffer [] = read [] buffer
  feed buffer (c ∷ rest) = elim (c == 10) [
    | true ↦ elim (decode_server_frame parse (buffer ++ 10 ∷ [])) [
      | refused code ↦ failed code
      | decoded v ↦ prepend (v ∷ []) (feed [] rest)
    ]
    | false ↦ elim (over (buffer ++ c ∷ [])) [
      | true ↦ failed frame_too_large
      | false ↦ feed (buffer ++ c ∷ []) rest
    ]
  ]

abbrev pub IsCounted : Decoder → Type 0
IsCounted d = d.pending_bytes ≡ length (joined d.chunks)

-- `append` refuses a part that is not empty and makes the open frame too long.
abbrev refuses : List ℕ → List ℕ → Bool
refuses buffer part = not (length part == 0) && over (buffer ++ part)

over-snoc : (buffer : List ℕ) (c : ℕ) → over buffer ≡ true → over (buffer ++ c ∷ []) ≡ true
unfolding exceeds
over-snoc buffer c h = ground (arith, length-append buffer (c ∷ []))

exceeds-append :
    (d : Decoder) (c : ℕ) (part : List ℕ)
    → IsCounted d
    → exceeds (d.pending_bytes + length (c ∷ part)) (c ∷ part) ≡ over (joined d.chunks ++ c ∷ part)
unfolding exceeds
exceeds-append d c part w = ground (
  arith,
  length-append (joined d.chunks) (c ∷ part),
  ends_with-append 13 c (joined d.chunks) part,
)

append-refuses :
    (part : List ℕ) (d : Decoder)
    → IsCounted d
    → refuses (joined d.chunks) part ≡ true
    → append part d ≡ too_large
unfolding append
append-refuses [] d w h = absurd (cc)
append-refuses (c ∷ part) d w h = rw (append, exceeds-append d c part w) (ground arith)

append-accepts :
    (part : List ℕ) (d : Decoder)
    → IsCounted d
    → refuses (joined d.chunks) part ≡ false
    → (e : Decoder) × ((append part d ≡ appended e)
        × ((joined e.chunks ≡ joined d.chunks ++ part) × IsCounted e))
unfolding append
append-accepts [] d w h = (d, (refl, (sym (append-nil (joined d.chunks)), w)))
append-accepts (c ∷ part) d w h =
    let longer = joined-snoc d.chunks (c ∷ part) in
    (
      with_part (c ∷ part) d,
      (
        rw (append, exceeds-append d c part w) (ground arith),
        (longer, omega (arith, w, ap length longer, length-append (joined d.chunks) (c ∷ part))),
      ),
    )

module _ {ℓ} {V : Type ℓ} (parse : List ℕ → Option V) where
  -- What the loop comes to when the bytes from the offset to the index are still unchecked.
  abbrev unchecked : List ℕ → List ℕ → List ℕ → List V → Read V
  unchecked buffer part rest seen =
      if refuses buffer part
      then failed frame_too_large
      else prepend seen (feed parse (buffer ++ part) rest)

  unchecked-snoc :
      (buffer part rest : List ℕ) (c : ℕ) (seen : List V)
      → (c == 10) ≡ false
      → unchecked buffer (part ++ c ∷ []) rest seen ≡ unchecked buffer part (c ∷ rest) seen
  unfolding feed
  unchecked-snoc buffer part rest c seen h = ground (
    arith,
    h,
    length-append part (c ∷ []),
    over-snoc (buffer ++ part) c,
    append_assoc buffer part (c ∷ []),
  )

  pub scan_lem :
      (part rest : List ℕ) (d : Decoder) (seen : List V)
      → IsCounted d
      → (read_of (scan parse part rest d seen) ≡ unchecked (joined d.chunks) part rest seen)
        × IsCounted (scan parse part rest d seen).0
  unfolding scan feed new_decoder
  scan_lem part [] d seen w = elim (Bool-cases (refuses (joined d.chunks) part)) [
    | inl long ↦ rw (scan, append-refuses part d w long, long) (refl, refl)
    | inr fits ↦
        let (e, (ok, (bytes, counted))) = append-accepts part d w fits in
        rw (scan, ok, fits)
          (
            ap (λ b. read seen b) bytes
                ∙ ap (λ l. read l (joined d.chunks ++ part)) (sym (append-nil seen)),
            counted,
          )
  ]
  scan_lem part (c ∷ rest) d seen w = elim (Bool-cases (c == 10)) [
    | inl line ↦ elim (Bool-cases (refuses (joined d.chunks) part)) [
      | inl long ↦ rw (scan, line, append-refuses part d w long, long) (refl, refl)
      | inr fits ↦
          let (e, (ok, (bytes, counted))) = append-accepts part d w fits in
          elim (Decoded-cases (decode_server_frame parse ((joined d.chunks ++ part) ++ 10 ∷ []))) [
            | inl (code, bad) ↦ rw (scan, line, ok, fits, feed, bytes, bad) (refl, refl)
            | inr (v, good) ↦
                let (next, counted) = scan_lem [] rest new_decoder (seen ++ v ∷ []) refl in
                rw (scan, line, ok, fits, feed, bytes, good)
                  (next ∙ prepend-append seen (v ∷ []) (feed parse [] rest), counted)
          ]
    ]
    | inr other ↦
        let (same, counted) = scan_lem (part ++ c ∷ []) rest d seen w in
        rw (scan, other) (same ∙ unchecked-snoc (joined d.chunks) part rest c seen other, counted)
  ]

  -- `push`, chunk after chunk, until it throws.
  unfoldable pub read_all : List (List ℕ) → Decoder → Read V
  read_all [] d = read [] (joined d.chunks)
  read_all (chunk ∷ chunks) d =
      let rest = read_all chunks (push parse chunk d).0 in
      elim (push parse chunk d).1 [ thrown code ↦ failed code | messages vs ↦ prepend vs rest ]

  -- Reading goes on from the bytes of the open frame.
  abbrev go_on : List ℕ → Read V → Read V
  go_on rest (failed code) = failed code
  go_on rest (read vs open_frame) = prepend vs (feed parse open_frame rest)

  go_on-prepend :
      (vs : List V) (rest : List ℕ) (r : Read V)
      → go_on rest (prepend vs r) ≡ prepend vs (go_on rest r)
  go_on-prepend vs rest (failed code) = refl
  go_on-prepend vs rest (read ws b) = prepend-append vs ws (feed parse b rest)

  feed-append :
      (buffer xs ys : List ℕ) → feed parse buffer (xs ++ ys) ≡ go_on ys (feed parse buffer xs)
  unfolding feed
  feed-append buffer [] ys = sym (prepend-nil (feed parse buffer ys))
  feed-append buffer (c ∷ xs) ys = elim (Bool-cases (c == 10)) [
    | inl line ↦ elim (Decoded-cases (decode_server_frame parse (buffer ++ 10 ∷ []))) [
      | inl (code, bad) ↦ rw (feed, line, bad) refl
      | inr (v, good) ↦
          rw (feed, line, good)
            (ap (prepend (v ∷ [])) (feed-append [] xs ys)
              ∙ sym (go_on-prepend (v ∷ []) ys (feed parse [] xs)))
    ]
    | inr other ↦ ground (arith, other, feed-append (buffer ++ c ∷ []) xs ys)
  ]

  push_lem :
      (chunk : List ℕ) (d : Decoder)
      → IsCounted d
      → (read_of (push parse chunk d) ≡ feed parse (joined d.chunks) chunk)
        × IsCounted (push parse chunk d).0
  unfolding push
  push_lem chunk d w =
      let (same, counted) = scan_lem [] chunk d [] w in
      (
        same
            ∙ prepend-nil (feed parse (joined d.chunks ++ []) chunk)
            ∙ ap (λ b. feed parse b chunk) (append-nil (joined d.chunks)),
        counted,
      )

  read_all-step :
      (chunks : List (List ℕ)) (rest : List ℕ) (p : Decoder × Pushed V)
      → read_all chunks p.0 ≡ feed parse (joined p.0.chunks) rest
      → (elim p.1 [ thrown code ↦ failed code | messages vs ↦ prepend vs (read_all chunks p.0) ])
        ≡ go_on rest (read_of p)
  read_all-step chunks rest (d, thrown code) same = refl
  read_all-step chunks rest (d, messages vs) same = ap (prepend vs) same

  -- From a decoder that counts its bytes, however a stream is cut into chunks, pushing them gives
  -- what reading it byte by byte gives: the same messages and open frame, or the same error.
  pub read_all-feed :
      (chunks : List (List ℕ)) (d : Decoder)
      → IsCounted d
      → read_all chunks d ≡ feed parse (joined d.chunks) (joined chunks)
  unfolding read_all feed
  read_all-feed [] d w = refl
  read_all-feed (chunk ∷ chunks) d w =
      let (same, counted) = push_lem chunk d w in
      read_all-step chunks (joined chunks) (push parse chunk d)
        (read_all-feed chunks (push parse chunk d).0 counted)
      ∙ ap (go_on (joined chunks)) same
      ∙ sym (feed-append (joined d.chunks) chunk (joined chunks))
