-- ===== src/Base/HostPort.antt =====
-- Host and port in one text, as net.SplitHostPort and net.JoinHostPort read and write it, and the
-- first part of strings.Split.
use mathlib.Core.Path.{◌≡◌, refl, ap}
use mathlib.Core.Bool.{Bool, false, ◌||◌}
use mathlib.Core.Option.{Option, none, some}
use mathlib.Core.List.{[], ◌∷◌, ◌++◌}
use Prim.Native.Nat.{ℕ}
use native.Mathlib.Omega.{arith}
use ztna_project.Base.Tests.{◌==◌, if◌then◌else◌}
use ztna_project.Base.Texts.{Text, Lacks, before_last}

unfoldable pub has_byte : ℕ → Text → Bool
has_byte c [] = false
has_byte c (d ∷ s) = d == c || has_byte c s

unfoldable pub until : ℕ → Text → Text
until c [] = []
until c (d ∷ s) = let rest = until c s in if d == c then [] else d ∷ rest

-- What comes before and after the last `c`.
abbrev last_or : ℕ → ℕ → Text → Option (Text × Text) → Option (Text × Text)
last_or c d s (some (u, v)) = some (d ∷ u, v)
last_or c d s none = if d == c then some ([], s) else none

unfoldable pub split_last : ℕ → Text → Option (Text × Text)
split_last c [] = none
split_last c (d ∷ s) = last_or c d s (split_last c s)

-- The host of what precedes the last colon: in brackets, or without colon and bracket.
abbrev unbracketed : Option Text → Option Text
unbracketed none = none
unbracketed (some inner) = if has_byte b'[' inner || has_byte b']' inner then none else some inner

abbrev plain : Text → Option Text
plain h = if has_byte b':' h || has_byte b'[' h || has_byte b']' h then none else some h

unfoldable host_of : Text → Option Text
unfolding before_last has_byte
host_of [] = some []
host_of (c ∷ h) = if c == b'[' then unbracketed (before_last b']' h) else plain (c ∷ h)

abbrev with_port : Text → Option Text → Option (Text × Text)
with_port p none = none
with_port p (some h) = if has_byte b'[' p || has_byte b']' p then none else some (h, p)

abbrev host_and_port : Option (Text × Text) → Option (Text × Text)
host_and_port none = none
host_and_port (some (h, p)) = with_port p (host_of h)

unfoldable pub split_host_port : Text → Option (Text × Text)
unfolding split_last host_of
split_host_port s = host_and_port (split_last b':' s)

-- fmt.Sprintf("%s:%s", host, port).
abbrev pub join_host_port : Text → Text → Text
join_host_port h p = h ++ b':' ∷ p

has_byte-Lacks : (c : ℕ) (s : Text) → Lacks c s → has_byte c s ≡ false
unfolding has_byte
has_byte-Lacks c [] h = refl
has_byte-Lacks c (d ∷ s) (h, hs) = ground (arith, h, has_byte-Lacks c s hs)

split_last-none : (c : ℕ) (s : Text) → Lacks c s → split_last c s ≡ none
unfolding split_last
split_last-none c [] h = refl
split_last-none c (d ∷ s) (h, hs) = rw (split_last-none c s hs, h)

split_last-append : (c : ℕ) (s t : Text) → Lacks c t → split_last c (s ++ c ∷ t) ≡ some (s, t)
unfolding split_last
split_last-append c [] t h = ground (arith, split_last-none c t h)
split_last-append c (d ∷ s) t h = ap (last_or c d (s ++ c ∷ t)) (split_last-append c s t h)

host_of-plain : (h : Text) → Lacks b':' h → Lacks b'[' h → Lacks b']' h → host_of h ≡ some h
unfolding host_of
host_of-plain [] hc ho hx = refl
host_of-plain (c ∷ h) hc ho hx = ground (
  arith,
  ho.0,
  has_byte-Lacks b':' (c ∷ h) hc,
  has_byte-Lacks b'[' (c ∷ h) ho,
  has_byte-Lacks b']' (c ∷ h) hx,
)

-- A host and a port that have no colon and no bracket survive being written and read.
pub split_host_port-join_host_port :
    (h p : Text)
    → Lacks b':' h
    → Lacks b'[' h
    → Lacks b']' h
    → Lacks b':' p
    → Lacks b'[' p
    → Lacks b']' p
    → split_host_port (join_host_port h p) ≡ some (h, p)
unfolding split_host_port
split_host_port-join_host_port h p hc ho hx pc po px = rw (
  split_host_port,
  split_last-append b':' h p pc,
  host_of-plain h hc ho hx,
  has_byte-Lacks b'[' p po,
  has_byte-Lacks b']' p px,
)
