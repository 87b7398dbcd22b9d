-- ===== src/Gateway/Framing/Roundtrip.antt =====
-- A message that is written is the message that is read.
use ztna_project.Base.{
  ℕ, ◌/◌, ◌%◌, ◌^◌, ◌≤◌, ◌<◌, ◌≡◌, ◌≢◌, refl, ap, sym, ◌∙◌, inl, inr, false, Option, none, some,
  List, [], ◌∷◌, ◌++◌, arith, ltb, ◌==◌, Bool-cases, length,
}
use ztna_project.Gateway.Framing.{
  max_message_size, put_uint32, uint32, read_full, write_message, read_message, first_more,
  payload_of, frame,
}

uint32-put_uint32 :
    (n : ℕ)
    → n < 2 ^ 32
    → uint32 (n / 2 ^ 24 % 256) (n / 2 ^ 16 % 256) (n / 2 ^ 8 % 256) (n % 256) ≡ n
unfolding uint32
uint32-put_uint32 n h = omega (arith, h)

read_full-append :
    (payload rest : List ℕ) → read_full (length payload) (payload ++ rest) ≡ some (payload, rest)
unfolding read_full
read_full-append [] rest = refl
read_full-append (b ∷ payload) rest = ap (first_more b) (read_full-append payload rest)

frame-some :
    (payload bytes : List ℕ)
    → frame (some payload) ≡ some bytes
    → (length payload ≤ max_message_size) × (put_uint32 (length payload) ++ payload ≡ bytes)
frame-some payload bytes e = elim (Bool-cases (ltb max_message_size (length payload))) [
  | inl long ↦ let clash : none ≡ some bytes = rw long at e in ground (arith, clash)
  | inr short ↦
      let same : some (put_uint32 (length payload) ++ payload) ≡ some bytes = rw short at e in
      (ground (arith, short), ground (arith, same))
]

-- What the marshalled form must satisfy.
module _ {A : Type 0} (marshal : A → Option (List ℕ)) (unmarshal : List ℕ → Option A) where
  payload_of-append :
      (payload rest : List ℕ) (message : A)
      → length payload ≤ max_message_size
      → payload ≢ []
      → unmarshal payload ≡ some message
      → payload_of unmarshal (length payload) (payload ++ rest) ≡ some (message, rest)
  payload_of-append [] rest message small full good = absurd (full refl)
  payload_of-append (b ∷ payload) rest message small full good =
      let fits : ltb max_message_size (length (b ∷ payload)) ≡ false = ground (arith, small) in
      let positive : (length (b ∷ payload) == 0) ≡ false = ground arith in
      rw (fits, positive, read_full-append (b ∷ payload) rest, good)

  -- What WriteMessage writes, ReadMessage reads back, and it takes from the stream these bytes and
  -- no other: when Marshal yields a text that is not empty and that Unmarshal reads as the message.
  pub read_message-write_message :
      (message : A) (payload bytes rest : List ℕ)
      → marshal message ≡ some payload
      → payload ≢ []
      → unmarshal payload ≡ some message
      → write_message marshal message ≡ some bytes
      → read_message unmarshal (bytes ++ rest) ≡ some (message, rest)
  unfolding read_message write_message put_uint32
  read_message-write_message message payload bytes rest out full good e =
      let written : frame (some payload) ≡ some bytes = ap frame (sym out) ∙ e in
      let (small, same) = frame-some payload bytes written in
      ap (λ x. read_message unmarshal (x ++ rest)) (sym same)
      ∙ ap (λ n. payload_of unmarshal n (payload ++ rest))
          (uint32-put_uint32 (length payload) (omega (arith, small)))
      ∙ payload_of-append payload rest message small full good
