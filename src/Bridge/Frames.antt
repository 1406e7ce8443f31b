-- ===== src/Bridge/Frames.antt =====
-- src/infrastructure/codex-bridge/protocol.ts: frames of JSON lines, as lists of bytes. The UTF-8
-- decoder, JSON.parse and the compiled schema are one parameter of the decoder, which gives none
-- where any of them refuses; the schema and JSON.stringify are parameters of the encoder.
use pi_codex_adaptor.Prelude.{
  ℕ, ◌+◌, Bool, true, false, not, ◌&&◌, ◌||◌, Option, none, some, List, [], ◌∷◌, ◌++◌, ◌==◌, ltb,
  length, any, if◌then◌else◌,
}

-- 16 * 1024 * 1024
unfoldable pub max_frame_bytes : ℕ
max_frame_bytes = 16777216

-- The codes of `BridgeProtocolError`.
pub data ErrorCode : Type 0 where
  empty_frame frame_too_large handshake_mismatch invalid_frame multiple_frames : ErrorCode
  truncated_frame : ErrorCode

-- `bytes.at(-1) === c`
unfoldable pub ends_with : ℕ → List ℕ → Bool
ends_with c [] = false
ends_with c (x ∷ []) = x == c
ends_with c (x ∷ y ∷ xs) = ends_with c (y ∷ xs)

-- `bytes.subarray(0, -1)`
unfoldable pub without_last : List ℕ → List ℕ
without_last [] = []
without_last (x ∷ []) = []
without_last (x ∷ y ∷ xs) = x ∷ without_last (y ∷ xs)

-- `bytes.includes(c)`
abbrev pub includes : ℕ → List ℕ → Bool
includes c = any λ x. x == c

unfoldable pub strip_line_terminator : List ℕ → List ℕ
unfolding ends_with without_last
strip_line_terminator frame =
    if not (ends_with 10 frame)
    then frame
    else if ends_with 13 (without_last frame)
    then without_last (without_last frame)
    else without_last frame

pub data Decoded {ℓ} (V : Type ℓ) : Type ℓ where
  decoded : V → Decoded V
  refused : ErrorCode → Decoded V

module _ {ℓ} {V : Type ℓ} where
  abbrev pub or_invalid : Option V → Decoded V
  or_invalid none = refused invalid_frame
  or_invalid (some v) = decoded v

  -- The checks of a payload, and its parsing.
  unfoldable pub decode_payload : (List ℕ → Option V) → List ℕ → Decoded V
  decode_payload parse payload =
      if length payload == 0
      then refused empty_frame
      else if ltb max_frame_bytes (length payload)
      then refused frame_too_large
      else if includes 10 payload || includes 13 payload
      then refused multiple_frames
      else or_invalid (parse payload)

  unfoldable pub decode_server_frame : (List ℕ → Option V) → List ℕ → Decoded V
  unfolding decode_payload strip_line_terminator
  decode_server_frame parse frame = decode_payload parse (strip_line_terminator frame)

pub data Encoded : Type 0 where
  framed : List ℕ → Encoded
  unframed : ErrorCode → Encoded

unfoldable pub frame_payload : Option (List ℕ) → Encoded
frame_payload none = unframed invalid_frame
frame_payload (some payload) =
    if ltb max_frame_bytes (length payload)
    then unframed frame_too_large
    else framed (payload ++ 10 ∷ [])

unfoldable pub encode_client_message {ℓ} :
    {M : Type ℓ} → (M → Bool) → (M → Option (List ℕ)) → M → Encoded
unfolding frame_payload
encode_client_message valid stringify message =
    if valid message then frame_payload (stringify message) else unframed invalid_frame

-- `ServerFrameDecoder`
pub record Decoder : Type 0 where
  pub chunks : List (List ℕ)
  pub pending_bytes : ℕ

unfoldable pub new_decoder : Decoder
new_decoder = record { chunks = []; pending_bytes = 0 }

-- `#append` throws `frame_too_large`, after a reset.
pub data Appended : Type 0 where
  appended : Decoder → Appended
  too_large : Appended

unfoldable pub exceeds : ℕ → List ℕ → Bool
unfolding ends_with
exceeds pending part =
    ltb max_frame_bytes pending && not (pending == max_frame_bytes + 1 && ends_with 13 part)

abbrev pub with_part : List ℕ → Decoder → Decoder
with_part part d = record {
  chunks = d.chunks ++ part ∷ [];
  pending_bytes = d.pending_bytes + length part;
}

unfoldable pub append : List ℕ → Decoder → Appended
unfolding exceeds
append part d =
    if length part == 0
    then appended d
    else if exceeds (d.pending_bytes + length part) part
    then too_large
    else appended (with_part part d)

-- The bytes of the chunks, in order.
abbrev pub joined : List (List ℕ) → List ℕ
joined [] = []
joined (part ∷ parts) = part ++ joined parts

pub data Pushed {ℓ} (V : Type ℓ) : Type ℓ where
  messages : List V → Pushed V
  thrown : ErrorCode → Pushed V

module _ {ℓ} {V : Type ℓ} (parse : List ℕ → Option V) where
  -- The loop of `push`: the bytes from the offset to the index, and those from the index on.
  unfoldable pub scan : List ℕ → List ℕ → Decoder → List V → Decoder × Pushed V
  unfolding append new_decoder decode_server_frame
  scan part [] d seen = elim (append part d) [
    | too_large ↦ (new_decoder, thrown frame_too_large)
    | appended e ↦ (e, messages seen)
  ]
  scan part (c ∷ rest) d seen = elim (c == 10) [
    | true ↦ elim (append part d) [
      | too_large ↦ (new_decoder, thrown frame_too_large)
      | appended e ↦ elim (decode_server_frame parse (joined e.chunks ++ 10 ∷ [])) [
        | refused code ↦ (new_decoder, thrown code)
        | decoded v ↦ scan [] rest new_decoder (seen ++ v ∷ [])
      ]
    ]
    | false ↦ scan (part ++ c ∷ []) rest d seen
  ]

  unfoldable pub push : List ℕ → Decoder → Decoder × Pushed V
  unfolding scan
  push chunk d = scan [] chunk d []

-- `finish`, and whether it throws `truncated_frame`.
unfoldable pub finish : Decoder → Decoder × Bool
unfolding new_decoder
finish d = if d.pending_bytes == 0 then (d, false) else (new_decoder, true)
