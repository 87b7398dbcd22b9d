-- ===== src/ControlPlane/Tokens/Groups.antt =====
-- How the groups of a user are read from one text of the claims.
use mathlib.Core.List.{append_assoc, reverse, reverse-append, reverse-reverse, reverse-cons}
use ztna_project.Base.{
  ℕ, ◌≡◌, refl, sym, ap, ◌∙◌, true, false, List, [], ◌∷◌, ◌++◌, arith, All, lookup, some, Text,
  is_space, is_empty, has_byte, IsWord, Lacks, trim_space, trim_left, fields, fields-two, split,
  split-append, split-part,
}
use ztna_project.ControlPlane.Tokens.{Claim, text, claim_strings, names_in, trimmed_parts}

IsWord-append : (s t : Text) → IsWord s → IsWord t → IsWord (s ++ t)
IsWord-append [] t h k = k
IsWord-append (c ∷ s) t h k = (h.0, IsWord-append s t h.1 k)

IsWord-reverse : (s : Text) → IsWord s → IsWord (reverse s)
IsWord-reverse [] h = tt
IsWord-reverse (c ∷ s) h =
    rw (reverse-cons c s) (IsWord-append (reverse s) (c ∷ []) (IsWord-reverse s h.1) (h.0, tt))

trim_left-word : (s : Text) → IsWord s → trim_left s ≡ s
unfolding trim_left
trim_left-word [] h = refl
trim_left-word (c ∷ s) h = rw h.0 refl

-- What begins with a word has nothing to trim there.
trim_left-append : (w z : Text) → IsWord w → is_empty w ≡ false → trim_left (w ++ z) ≡ w ++ z
unfolding trim_left
trim_left-append [] z h filled = ground (arith, filled)
trim_left-append (c ∷ w) z h filled = rw h.0 refl

is_empty-append : (s : Text) (c : ℕ) → is_empty (s ++ c ∷ []) ≡ false
is_empty-append [] c = refl
is_empty-append (d ∷ s) c = refl

is_empty-reverse : (w : Text) → is_empty w ≡ false → is_empty (reverse w) ≡ false
is_empty-reverse [] h = h
is_empty-reverse (c ∷ w) h = ap is_empty (reverse-cons c w) ∙ is_empty-append (reverse w) c

-- Nor what ends with one.
trim_space-words :
    (w middle v : Text)
    → IsWord w
    → is_empty w ≡ false
    → IsWord v
    → is_empty v ≡ false
    → trim_space (w ++ (middle ++ v)) ≡ w ++ (middle ++ v)
unfolding trim_space
trim_space-words w middle v h filled k filled' =
    ap (λ s. reverse (trim_left (reverse s))) (trim_left-append w (middle ++ v) h filled)
    ∙ ap (λ s. reverse (trim_left (reverse s))) (sym (append_assoc w middle v))
    ∙ ap (λ s. reverse (trim_left s)) (reverse-append (w ++ middle) v)
    ∙ ap reverse (
        trim_left-append (reverse v) (reverse (w ++ middle)) (IsWord-reverse v k)
          (is_empty-reverse v filled'))
    ∙ ap reverse (sym (reverse-append (w ++ middle) v))
    ∙ reverse-reverse ((w ++ middle) ++ v)
    ∙ append_assoc w middle v

trim_space-word : (w : Text) → IsWord w → trim_space w ≡ w
unfolding trim_space
trim_space-word w h =
    ap (λ s. reverse (trim_left (reverse s))) (trim_left-word w h)
    ∙ ap reverse (trim_left-word (reverse w) (IsWord-reverse w h))
    ∙ reverse-reverse w

-- The names with a comma between any two.
abbrev joined : List Text → Text
joined [] = []
joined (n ∷ []) = n
joined (n ∷ m ∷ names) = n ++ b',' ∷ joined (m ∷ names)

-- A name that is not empty, without white space and commas.
abbrev IsGroupName : Text → Type 0
IsGroupName n = IsWord n × Lacks b',' n × (is_empty n ≡ false)

joined-IsWord : (names : List Text) → All IsGroupName names → IsWord (joined names)
unfolding is_space
joined-IsWord [] h = tt
joined-IsWord (n ∷ []) h = h.0.0
joined-IsWord (n ∷ m ∷ names) h =
    IsWord-append n (b',' ∷ joined (m ∷ names)) h.0.0 (refl, joined-IsWord (m ∷ names) h.1)

split-joined :
    (n : Text) (names : List Text)
    → All IsGroupName (n ∷ names)
    → split b',' (joined (n ∷ names)) ≡ n ∷ names
split-joined n [] h = split-part b',' n h.0.1
split-joined n (m ∷ names) h =
    split-append b',' n (joined (m ∷ names)) h.0.1 ∙ ap (λ r. n ∷ r) (split-joined m names h.1)

trimmed_parts-names : (names : List Text) → All IsGroupName names → trimmed_parts names ≡ names
unfolding trimmed_parts
trimmed_parts-names [] h = refl
trimmed_parts-names (n ∷ names) h =
    rw (trim_space-word n h.0.0, h.0.2) (ap (λ r. n ∷ r) (trimmed_parts-names names h.1))

has_byte-word : (w : Text) → IsWord w → has_byte b' ' w ≡ false
unfolding has_byte is_space
has_byte-word [] h = refl
has_byte-word (c ∷ w) h = ground (arith, h.0, has_byte-word w h.1)

has_byte-append : (c : ℕ) (s t : Text) → has_byte c (s ++ c ∷ t) ≡ true
unfolding has_byte
has_byte-append c [] t = ground arith
has_byte-append c (d ∷ s) t = ground (arith, has_byte-append c s t)

has_byte-Lacks : (c : ℕ) (s : Text) → Lacks c s → has_byte c s ≡ false
unfolding has_byte
has_byte-Lacks c [] h = refl
has_byte-Lacks c (d ∷ s) h = ground (arith, h.0, has_byte-Lacks c s h.1)

is_empty-joined :
    (n : Text) (names : List Text)
    → All IsGroupName (n ∷ names)
    → is_empty (joined (n ∷ names)) ≡ false
is_empty-joined [] names h = ground (arith, h.0.2)
is_empty-joined (c ∷ n) [] h = refl
is_empty-joined (c ∷ n) (m ∷ names) h = refl

names_in-joined : (names : List Text) → All IsGroupName names → names_in (joined names) ≡ names
unfolding names_in
names_in-joined [] h = refl
names_in-joined (n ∷ []) h =
    rw (is_empty-joined n [] h, has_byte-word n h.0.0, has_byte-Lacks b',' n h.0.1) refl
names_in-joined (n ∷ m ∷ names) h =
    rw
      (
        is_empty-joined n (m ∷ names) h,
        has_byte-word (joined (n ∷ m ∷ names)) (joined-IsWord (n ∷ m ∷ names) h),
        has_byte-append b',' n (joined (m ∷ names)),
      )
      (ap trimmed_parts (split-joined n (m ∷ names) h) ∙ trimmed_parts-names (n ∷ m ∷ names) h)

fields-comma :
    (n m : Text)
    → IsGroupName n
    → IsGroupName m
    → fields (n ++ b',' ∷ b' ' ∷ m) ≡ (n ++ b',' ∷ []) ∷ m ∷ []
unfolding is_space
fields-comma [] m h k = ground (arith, h.2)
fields-comma (a ∷ s) [] h k = ground (arith, k.2)
fields-comma (a ∷ s) (b ∷ t) h k =
    ap (λ r. fields (a ∷ r)) (sym (append_assoc s (b',' ∷ []) (b' ' ∷ b ∷ t)))
    ∙ fields-two a (s ++ b',' ∷ []) b t (h.0.0, IsWord-append s (b',' ∷ []) h.0.1 (refl, tt)) k.0

is_empty-middle : (s t : Text) (c : ℕ) → is_empty (s ++ c ∷ t) ≡ false
is_empty-middle [] t c = refl
is_empty-middle (d ∷ s) t c = refl

has_byte-after : (c d : ℕ) (s t : Text) → has_byte c (s ++ d ∷ c ∷ t) ≡ true
unfolding has_byte
has_byte-after c d [] t = ground arith
has_byte-after c d (e ∷ s) t = ground (arith, has_byte-after c d s t)

names_in-two :
    (n m : Text)
    → IsGroupName n
    → IsGroupName m
    → names_in (n ++ b',' ∷ b' ' ∷ m) ≡ (n ++ b',' ∷ []) ∷ m ∷ []
unfolding names_in
names_in-two n m h k =
    rw (is_empty-middle n (b' ' ∷ m) b',', has_byte-after b' ' b',' n m) (fields-comma n m h k)

-- Groups that the claim gives as one text, separated by commas alone, are read as they were: for
-- names that are not empty and have no white space and no comma.
claim_strings-joined :
    (claims : List (Text × Claim)) (claim : Text) (names : List Text)
    → lookup claim claims ≡ some (text (joined names))
    → All IsGroupName names
    → claim_strings claims claim ≡ names
unfolding claim_strings
claim_strings-joined claims claim names given h =
    rw (given, claim_strings)
      (ap names_in (trim_space-word (joined names) (joined-IsWord names h))
        ∙ names_in-joined names h)

-- But two names that are separated by a comma and a blank are cut at the blank: the first keeps
-- its comma, and so is another name.
claim_strings-comma_blank :
    (claims : List (Text × Claim)) (claim n m : Text)
    → lookup claim claims ≡ some (text (n ++ b',' ∷ b' ' ∷ m))
    → IsGroupName n
    → IsGroupName m
    → claim_strings claims claim ≡ (n ++ b',' ∷ []) ∷ m ∷ []
unfolding claim_strings
claim_strings-comma_blank claims claim n m given h k =
    rw (given, claim_strings)
      (ap names_in (trim_space-words n (b',' ∷ b' ' ∷ []) m h.0 h.2 k.0 k.2) ∙ names_in-two n m h k)
