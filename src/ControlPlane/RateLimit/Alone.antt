-- ===== src/ControlPlane/RateLimit/Alone.antt =====
-- A key is limited by its own requests alone.
use ztna_project.Base.{
  ℕ, ◌≡◌, refl, sym, ap, ◌∙◌, inl, inr, Option, none, some, List, [], ◌∷◌, if◌then◌else◌,
  Bool-cases, Option-cases, Text, text_eq, text_eq_iff, lookup, lookup-insert, lookup-keep,
  lookup-keep-none, HasDistinctKeys, insert-HasDistinctKeys, keep-HasDistinctKeys,
}
use ztna_project.ControlPlane.RateLimit.{
  Bucket, IpLimiter, Limiters, bucket_of, touched, allow, is_recent, cleanup,
}

-- What reaches the limiter: a request for a key, and a round of the cleanup.
pub data Event : Type 0 where
  asks : (now : ℕ) (key : Text) → Event
  cleans : (now : ℕ) → Event

module _ (b : Bucket) where
  unfoldable pub step : Event → Limiters b → Limiters b
  unfolding allow cleanup
  step (asks now key) limiters = (allow b now key limiters).0
  step (cleans now) limiters = cleanup b now limiters

  -- A history of events, the last one first.
  unfoldable pub run : List Event → Limiters b
  unfolding step
  run [] = []
  run (e ∷ events) = step e (run events)

  abbrev pub kept : (now : ℕ) → Option (IpLimiter b) → Option (IpLimiter b)
  kept now none = none
  kept now (some entry) = if is_recent b now entry then some entry else none

  -- The limiter of one key, as if there were no other.
  unfoldable pub alone : (key : Text) → List Event → Option (IpLimiter b)
  alone key [] = none
  alone key (asks now other ∷ events) =
      if text_eq other key then some (touched b now (alone key events)) else alone key events
  alone key (cleans now ∷ events) = kept now (alone key events)

  step-HasDistinctKeys :
      (e : Event) (limiters : Limiters b)
      → HasDistinctKeys limiters
      → HasDistinctKeys (step e limiters)
  unfolding step allow cleanup
  step-HasDistinctKeys (asks now key) limiters h = insert-HasDistinctKeys key _ limiters h
  step-HasDistinctKeys (cleans now) limiters h = keep-HasDistinctKeys (is_recent b now) limiters h

  run-HasDistinctKeys : (events : List Event) → HasDistinctKeys (run events)
  unfolding run HasDistinctKeys
  run-HasDistinctKeys [] = tt
  run-HasDistinctKeys (e ∷ events) =
      step-HasDistinctKeys e (run events) (run-HasDistinctKeys events)

  lookup-cleanup :
      (now : ℕ) (key : Text) (limiters : Limiters b)
      → HasDistinctKeys limiters
      → lookup key (cleanup b now limiters) ≡ kept now (lookup key limiters)
  unfolding cleanup
  lookup-cleanup now key limiters h = elim (Option-cases (lookup key limiters)) [
    | inl unseen ↦
        lookup-keep-none (is_recent b now) key limiters unseen ∙ sym (ap (kept now) unseen)
    | inr (entry, found) ↦
        lookup-keep (is_recent b now) key limiters h found ∙ sym (ap (kept now) found)
  ]

  -- Whatever requests and cleanups came, the limiter of a key is the one that its own requests and
  -- the cleanups alone would have made: no other key shares it or clears it.
  lookup-run : (key : Text) (events : List Event) → lookup key (run events) ≡ alone key events
  unfolding run step alone allow lookup
  lookup-run key [] = refl
  lookup-run key (asks now other ∷ events) =
      lookup-insert other key (touched b now (lookup other (run events))) (run events)
      ∙ elim (Bool-cases (text_eq other key)) [
        | inl same ↦
            let eq = (text_eq_iff other key).0 same in
            rw same (
              ap (λ k. some (touched b now (lookup k (run events)))) eq
              ∙ ap (λ o. some (touched b now o)) (lookup-run key events))
        | inr apart ↦ rw apart (lookup-run key events)
      ]
  lookup-run key (cleans now ∷ events) =
      lookup-cleanup now key (run events) (run-HasDistinctKeys events)
      ∙ ap (kept now) (lookup-run key events)

  -- So a request is let through or not by its key's own history: as the bucket decides that this
  -- history leaves, and by a full bucket where there is none.
  pub allow-run :
      (now : ℕ) (key : Text) (events : List Event)
      → (allow b now key (run events)).1 ≡ (b.allow now (bucket_of b (alone key events))).1
  unfolding allow
  allow-run now key events = ap (λ o. (b.allow now (bucket_of b o)).1) (lookup-run key events)
