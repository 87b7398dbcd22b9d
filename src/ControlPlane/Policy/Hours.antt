-- ===== src/ControlPlane/Policy/Hours.antt =====
-- Allowed hours: clock texts, and the window round midnight as an arc of the day.
use native.Mathlib.Decide.{ℕ_discrete}
use ztna_project.Base.{
  ℕ, ◌+◌, ◌-◌, ◌*◌, ◌/◌, ◌%◌, ◌<◌, ◌≡◌, refl, ap, ◌↔◌, Bool, true, false, ◌&&◌, Option, none, some,
  [], ◌∷◌, ◌++◌, arith, ◌==◌, Text, split_two, trim_space, atoi, Lacks, split_two-append, zero, suc,
  ==_iff,
}
use ztna_project.ControlPlane.Policy.{parse_hhmm, in_window, match_allowed_hours}

-- `HH:MM`, as the policy files write it.
abbrev two_digits : ℕ → Text
two_digits n = (b'0' + n / 10) ∷ (b'0' + n % 10) ∷ []

abbrev clock_text : (h m : ℕ) → Text
clock_text h m = two_digits h ++ b':' ∷ two_digits m

-- The test passes on every number under the bound.
every : (bound : ℕ) (test : ℕ → Bool) → Bool
every zero test = true
every (suc last) test = every last test && test last

every-true :
    (test : ℕ → Bool) {i : ℕ} (bound : ℕ) → i < bound → every bound test ≡ true → test i ≡ true
unfolding every
every-true test zero i_lt e = absurd (omega arith)
every-true test {i} (suc last) i_lt e = elim (ℕ_discrete i last) [
  | yes same ↦ rw same (ground arith)
  | no other ↦ every-true test {i = i} last (omega arith) (ground arith)
]

is_found : Option ℕ → ℕ → Bool
is_found none n = false
is_found (some k) n = k == n

reads_clock : ℕ → ℕ → Bool
unfolding is_found
reads_clock h m = is_found (parse_hhmm (clock_text h m)) (h * 60 + m)

clock_table : every 24 (λ h. every 60 (reads_clock h)) ≡ true
unfolding every reads_clock parse_hhmm split_two trim_space atoi
clock_table = refl

is_found_sound : (o : Option ℕ) (n : ℕ) → is_found o n ≡ true → o ≡ some n
unfolding is_found
is_found_sound none n e = cc
is_found_sound (some k) n e = ap some ((==_iff k n).0 e)

-- Every time of the day that is written `HH:MM` is read as its minutes since midnight.
parse_hhmm-clock_text :
    (h m : ℕ) → h < 24 → m < 60 → parse_hhmm (clock_text h m) ≡ some (h * 60 + m)
parse_hhmm-clock_text h m p q =
    let row = every-true (λ h. every 60 (reads_clock h)) {i = h} 24 p clock_table in
    let cell = every-true (reads_clock h) {i = m} 60 q row in
    is_found_sound (parse_hhmm (clock_text h m)) (h * 60 + m) (unfold reads_clock in cell)

-- Minutes from `start` on to `t`, going forward round the day.
abbrev pub minutes_after : (start t : ℕ) → ℕ
minutes_after start t = (t + 1440 - start) % 1440

in_window_iff :
    (start end now : ℕ)
    → start < 1440
    → end < 1440
    → now < 1440
    → (in_window start end now ≡ true) ↔ (minutes_after start now < minutes_after start end)
unfolding in_window
in_window_iff start end now p q r = (λ h. ground arith, λ h. ground arith)

-- With two different clock times the window is the arc that leads from the first forward to the
-- second, whether it passes midnight or not.
pub match_allowed_hours_iff :
    (h m h' m' now : ℕ)
    → h < 24
    → m < 60
    → h' < 24
    → m' < 60
    → now < 1440
    → (match_allowed_hours now (clock_text h m ++ b'-' ∷ clock_text h' m') ≡ true)
      ↔ (minutes_after (h * 60 + m) now < minutes_after (h * 60 + m) (h' * 60 + m'))
unfolding match_allowed_hours
match_allowed_hours_iff h m h' m' now a b c d e =
    rw
      (
        split_two-append b'-' (clock_text h m) (clock_text h' m') (clock_text-Lacks h m),
        match_allowed_hours,
      )
      (rw (parse_hhmm-clock_text h m a b, parse_hhmm-clock_text h' m' c d)
        (in_window_iff (h * 60 + m) (h' * 60 + m') now (omega arith) (omega arith) e))
  where
    clock_text-Lacks : (h m : ℕ) → Lacks b'-' (clock_text h m)
    clock_text-Lacks h m = ground arith
