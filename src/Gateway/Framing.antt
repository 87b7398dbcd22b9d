-- ===== src/Gateway/Framing.antt =====
-- gateway/internal/usecase/connect/connect.go: messages with a length before them. Marshal and
-- Unmarshal of JSON are arguments, `none` where they fail; a stream is the list of the bytes that
-- are still to be read.
pub mod Roundtrip
use ztna_project.Base.{
  ℕ, zero, suc, ◌+◌, ◌*◌, ◌/◌, ◌%◌, ◌^◌, Bool, Option, none, some, List, [], ◌∷◌, ◌++◌, ltb, ◌==◌,
  if◌then◌else◌, length,
}

abbrev pub max_message_size : ℕ
max_message_size = 2 ^ 20

-- binary.BigEndian.PutUint32, of uint32(n), and Uint32.
unfoldable pub put_uint32 : ℕ → List ℕ
put_uint32 n = n / 2 ^ 24 % 256 ∷ n / 2 ^ 16 % 256 ∷ n / 2 ^ 8 % 256 ∷ n % 256 ∷ []

unfoldable pub uint32 : ℕ → ℕ → ℕ → ℕ → ℕ
uint32 a b c d = a * 2 ^ 24 + b * 2 ^ 16 + c * 2 ^ 8 + d

abbrev first_more : ℕ → Option (List ℕ × List ℕ) → Option (List ℕ × List ℕ)
first_more b none = none
first_more b (some (read, rest)) = some (b ∷ read, rest)

-- io.ReadFull: that many bytes, or none where the stream ends before.
unfoldable pub read_full : ℕ → List ℕ → Option (List ℕ × List ℕ)
read_full zero stream = some ([], stream)
read_full (suc n) [] = none
read_full (suc n) (b ∷ stream) = first_more b (read_full n stream)

abbrev frame : Option (List ℕ) → Option (List ℕ)
frame none = none
frame (some payload) =
    if ltb max_message_size (length payload)
    then none
    else some (put_uint32 (length payload) ++ payload)

-- What WriteMessage writes, or nothing.
unfoldable pub write_message : {A : Type 0} → (marshal : A → Option (List ℕ)) → A → Option (List ℕ)
unfolding put_uint32
write_message marshal message = frame (marshal message)

abbrev with_rest : {A : Type 0} → List ℕ → Option A → Option (A × List ℕ)
with_rest rest none = none
with_rest rest (some message) = some (message, rest)

abbrev decoded : {A : Type 0} → (List ℕ → Option A) → Option (List ℕ × List ℕ) → Option (A × List ℕ)
decoded unmarshal none = none
decoded unmarshal (some (payload, rest)) = with_rest rest (unmarshal payload)

abbrev payload_of : {A : Type 0} → (List ℕ → Option A) → (size : ℕ) → List ℕ → Option (A × List ℕ)
payload_of unmarshal size stream =
    if ltb max_message_size size
    then none
    else if size == 0
    then none
    else decoded unmarshal (read_full size stream)

-- The message and the rest of the stream.
unfoldable pub read_message :
    {A : Type 0} → (unmarshal : List ℕ → Option A) → List ℕ → Option (A × List ℕ)
unfolding read_full uint32
read_message unmarshal (a ∷ b ∷ c ∷ d ∷ stream) = payload_of unmarshal (uint32 a b c d) stream
read_message unmarshal _ = none
