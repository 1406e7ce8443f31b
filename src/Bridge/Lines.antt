-- ===== src/Bridge/Lines.antt =====
-- src/infrastructure/codex-bridge/protocol.ts: a stream of lines is read as the messages in them.
use pi_codex_adaptor.Prelude.{
  ℕ, ◌≤◌, ◌<◌, Bool, true, false, ◌≡◌, refl, sym, ap, ◌∙◌, Option, some, List, [], ◌∷◌, ◌++◌, map,
  ◌==◌, length, arith, All,
}
use mathlib.Core.List.{append-nil, append_assoc}
use pi_codex_adaptor.Bridge.Frames.{
  max_frame_bytes, decoded, ends_with, without_last, includes, strip_line_terminator,
  decode_payload, decode_server_frame, new_decoder, exceeds, joined,
}
use pi_codex_adaptor.Bridge.Stream.{
  read, length-append, ends_with-append, over, prepend, feed, read_all, read_all-feed,
}

-- A line of a server: a payload, ended by a line feed, with a carriage return before it or without.
pub record Line {ℓ} (V : Type ℓ) : Type ℓ where
  pub payload : List ℕ
  pub carriage_return : Bool
  pub message : V

abbrev pub terminator : Bool → List ℕ
terminator true = 13 ∷ 10 ∷ []
terminator false = 10 ∷ []

without_last-append :
    (x : ℕ) (xs ys : List ℕ) → without_last (xs ++ x ∷ ys) ≡ xs ++ without_last (x ∷ ys)
unfolding without_last
without_last-append x [] ys = refl
without_last-append x (y ∷ []) ys = refl
without_last-append x (y ∷ z ∷ xs) ys = ap (λ l. y ∷ l) (without_last-append x (z ∷ xs) ys)

ends_with-includes : (c : ℕ) (xs : List ℕ) → includes c xs ≡ false → ends_with c xs ≡ false
unfolding ends_with
ends_with-includes c [] h = refl
ends_with-includes c (x ∷ []) h = ground arith
ends_with-includes c (x ∷ y ∷ xs) h = ends_with-includes c (y ∷ xs) (ground arith)

strip-terminator :
    (payload : List ℕ) (r : Bool)
    → includes 13 payload ≡ false
    → strip_line_terminator (payload ++ terminator r) ≡ payload
unfolding strip_line_terminator ends_with without_last
strip-terminator payload true h =
    rw
      (
        strip_line_terminator,
        ends_with-append 10 13 payload (10 ∷ []),
        without_last-append 13 payload (10 ∷ []),
        ends_with-append 13 13 payload [],
        without_last-append 13 payload [],
      )
      (append-nil payload)
strip-terminator payload false h =
    rw
      (
        strip_line_terminator,
        ends_with-append 10 10 payload [],
        without_last-append 10 payload [],
        append-nil payload,
        ends_with-includes 13 payload h,
      )
      refl

module _ {ℓ} {V : Type ℓ} (parse : List ℕ → Option V) where
  -- The payload is not empty, holds no line end, fits into a frame, and parses as the message.
  pub record IsLine (l : Line V) : Type ℓ where
    pub nonempty : 0 < length l.payload
    pub fits : length l.payload ≤ max_frame_bytes
    pub no_feed : includes 10 l.payload ≡ false
    pub no_return : includes 13 l.payload ≡ false
    pub parses : parse l.payload ≡ some l.message

  abbrev pub stream : List (Line V) → List ℕ
  stream [] = []
  stream (l ∷ ls) = (l.payload ++ terminator l.carriage_return) ++ stream ls

  feed-other :
      (buffer rest : List ℕ) (c : ℕ)
      → (c == 10) ≡ false
      → over (buffer ++ c ∷ []) ≡ false
      → feed parse buffer (c ∷ rest) ≡ feed parse (buffer ++ c ∷ []) rest
  unfolding feed
  feed-other buffer rest c other fits = rw (feed, other, fits) refl

  feed-payload :
      (buffer payload rest : List ℕ)
      → includes 10 payload ≡ false
      → length (buffer ++ payload) ≤ max_frame_bytes
      → feed parse buffer (payload ++ rest) ≡ feed parse (buffer ++ payload) rest
  unfolding feed exceeds
  feed-payload buffer [] rest h n = ap (λ b. feed parse b rest) (sym (append-nil buffer))
  feed-payload buffer (c ∷ payload) rest h n =
      feed-other buffer (payload ++ rest) c (ground arith)
        (ground (arith, length-append buffer (c ∷ payload), length-append buffer (c ∷ [])))
      ∙ feed-payload (buffer ++ c ∷ []) payload rest (ground arith)
          (ground (arith, append_assoc buffer (c ∷ []) payload))
      ∙ ap (λ b. feed parse b rest) (append_assoc buffer (c ∷ []) payload)

  decode-line :
      (l : Line V)
      → IsLine l
      → decode_server_frame parse (l.payload ++ terminator l.carriage_return) ≡ decoded l.message
  unfolding decode_server_frame decode_payload
  decode-line l w =
      ap (decode_payload parse) (strip-terminator l.payload l.carriage_return w.no_return)
      ∙ ground (arith, w.nonempty, w.fits, w.no_feed, w.no_return, w.parses)

  feed-end :
      (l : Line V) (rest : List ℕ) (r : Bool)
      → IsLine l
      → l.carriage_return ≡ r
      → feed parse l.payload (terminator r ++ rest) ≡ prepend (l.message ∷ []) (feed parse [] rest)
  unfolding feed exceeds ends_with
  feed-end l rest false w e =
      let good : decode_server_frame parse (l.payload ++ terminator false) ≡ decoded l.message =
        rw e at (decode-line l w) in
      rw (feed, good) refl
  feed-end l rest true w e =
      let good : decode_server_frame parse ((l.payload ++ 13 ∷ []) ++ 10 ∷ []) ≡ decoded l.message =
        rw (append_assoc l.payload (13 ∷ []) (10 ∷ [])) (rw e at (decode-line l w)) in
      feed-other l.payload (10 ∷ rest) 13 refl (
        ground
          (arith, w.fits, length-append l.payload (13 ∷ []), ends_with-append 13 13 l.payload []))
      ∙ rw (feed, good) refl

  feed-line :
      (l : Line V) (rest : List ℕ)
      → IsLine l
      → feed parse [] ((l.payload ++ terminator l.carriage_return) ++ rest)
        ≡ prepend (l.message ∷ []) (feed parse [] rest)
  unfolding feed
  feed-line l rest w =
      ap (feed parse []) (append_assoc l.payload (terminator l.carriage_return) rest)
      ∙ feed-payload [] l.payload (terminator l.carriage_return ++ rest) w.no_feed w.fits
      ∙ feed-end l rest l.carriage_return w refl

  feed-stream :
      (ls : List (Line V))
      → All IsLine ls
      → feed parse [] (stream ls) ≡ read (map (λ l. l.message) ls) []
  unfolding feed
  feed-stream [] w = refl
  feed-stream (l ∷ ls) w =
      feed-line l (stream ls) w.0 ∙ ap (prepend (l.message ∷ [])) (feed-stream ls w.1)

  -- However a stream of lines is cut into chunks, a new decoder gives back their messages in order,
  -- and keeps no byte, when each line is a payload that is not empty, holds no line end, fits into
  -- a frame and parses as the message.
  pub read_all-stream :
      (ls : List (Line V)) (chunks : List (List ℕ))
      → All IsLine ls
      → joined chunks ≡ stream ls
      → read_all parse chunks new_decoder ≡ read (map (λ l. l.message) ls) []
  unfolding new_decoder
  read_all-stream ls chunks w cut =
      read_all-feed parse chunks new_decoder refl ∙ ap (feed parse []) cut ∙ feed-stream ls w
