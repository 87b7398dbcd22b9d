-- ===== src/Gateway/Catalog/Fresh.antt =====
-- How old an answer of the gateway's catalogue may be.
use ztna_project.Base.{
  ℕ, ◌+◌, ◌≤◌, Option-cases, ◌<◌, ◌≡◌, refl, sym, ap, ◌∙◌, ◌⊎◌, inl, inr, Bool, true, false, Option,
  none, some, List, [], ◌∷◌, arith, Bool-cases, ltb, ltb→lt, Text, text_eq, text_eq_iff, lookup,
  lookup-insert, IsIn,
}
use ztna_project.Gateway.Connect.{ResolvedResource}
use ztna_project.Gateway.Catalog.{
  CacheEntry, Client, sixty_seconds, new_client, Ask, cached, after_call, ask_control_plane,
  after_cache, get_resource, run,
}

-- The control plane gave this answer for the name in one of the calls, which ended at that time.
abbrev pub WasAnswered : List Ask → Text → ResolvedResource → (at : ℕ) → Type 0
WasAnswered asks name r at =
    (a : Ask) × IsIn a asks × (a.name ≡ name) × (a.answer ≡ some r) × (a.later ≡ at)

-- What the cache holds comes from such an answer, and expires sixty seconds after it.
abbrev IsEarnedBy : List Ask → Text → CacheEntry → Type 0
IsEarnedBy asks name entry =
    (at : ℕ) × WasAnswered asks name entry.resource at × (entry.expires_at ≡ at + sixty_seconds)

abbrev IsEarned : List Ask → Client → Type 0
IsEarned asks c =
    (c.cache_ttl ≡ sixty_seconds)
    × ((name : Text) (entry : CacheEntry)
        → lookup name c.cache ≡ some entry
        → IsEarnedBy asks name entry)

WasAnswered-more :
    (a : Ask) (asks : List Ask) (name : Text) (entry : CacheEntry)
    → IsEarnedBy asks name entry
    → IsEarnedBy (a ∷ asks) name entry
WasAnswered-more a asks name entry (at, (b, among, named, answered, ended), expires) =
    (at, (b, inr among, named, answered, ended), expires)

after_call-IsEarned :
    (a : Ask) (asks : List Ask) (o : Option ResolvedResource) (c : Client)
    → a.answer ≡ o
    → IsEarned asks c
    → IsEarned (a ∷ asks) (after_call a o c).0
after_call-IsEarned a asks none c answered (ttl, earned) =
    (ttl, (λ name entry found. WasAnswered-more a asks name entry (earned name entry found)))
after_call-IsEarned a asks (some r) c answered (ttl, earned) = (
  ttl,
  (λ name entry found.
      (let new : CacheEntry = record { resource = r; expires_at = a.later + c.cache_ttl } in
        let split = sym (lookup-insert a.name name new c.cache) ∙ found in
        elim (Bool-cases (text_eq a.name name)) [
          | inl same ↦
              let e : some new ≡ some entry = rw same at split in
              let e' : new ≡ entry = ground (arith, e) in
              (
                a.later,
                (
                  a,
                  inl refl,
                  (text_eq_iff a.name name).0 same,
                  answered ∙ ap (λ (x : CacheEntry). some x.resource) e',
                  refl,
                ),
                sym (ap (λ (x : CacheEntry). x.expires_at) e') ∙ ap (λ t. a.later + t) ttl,
              )
          | inr other ↦ WasAnswered-more a asks name entry (earned name entry (rw other at split))
        ])),
)

ask_control_plane-IsEarned :
    (ready : Bool) (a : Ask) (asks : List Ask) (c : Client)
    → IsEarned asks c
    → IsEarned (a ∷ asks) (ask_control_plane ready a c).0
ask_control_plane-IsEarned true a asks c h = after_call-IsEarned a asks a.answer c refl h
ask_control_plane-IsEarned false a asks c (ttl, earned) =
    (ttl, (λ name entry found. WasAnswered-more a asks name entry (earned name entry found)))

after_cache-IsEarned :
    (a : Ask) (asks : List Ask) (o : Option ResolvedResource) (c : Client)
    → IsEarned asks c
    → IsEarned (a ∷ asks) (after_cache a o c).0
after_cache-IsEarned a asks (some r) c (ttl, earned) =
    (ttl, (λ name entry found. WasAnswered-more a asks name entry (earned name entry found)))
after_cache-IsEarned a asks none c h = ask_control_plane-IsEarned c.has_http_client a asks c h

run-IsEarned : (ready : Bool) (asks : List Ask) → IsEarned asks (run ready asks)
unfolding run new_client get_resource lookup
run-IsEarned ready [] = (refl, (λ name entry found. ground (arith, found)))
run-IsEarned ready (a ∷ asks) =
    after_cache-IsEarned a asks _ (run ready asks) (run-IsEarned ready asks)

cached-some :
    (now : ℕ) (o : Option CacheEntry) (r : ResolvedResource)
    → cached now o ≡ some r
    → (entry : CacheEntry) × (o ≡ some entry) × (now < entry.expires_at) × (entry.resource ≡ r)
cached-some now none r e = ground (arith, e)
cached-some now (some entry) r e = elim (Bool-cases (ltb now entry.expires_at)) [
  | inl valid ↦
      let same : some entry.resource ≡ some r = rw (valid, cached) at e in
      (entry, refl, ltb→lt now entry.expires_at valid, ground (arith, same))
  | inr expired ↦ let clash : none ≡ some r = rw (expired, cached) at e in ground (arith, clash)
]

after_call-some :
    (a : Ask) (o : Option ResolvedResource) (c : Client) (r : ResolvedResource)
    → (after_call a o c).1 ≡ some r
    → o ≡ some r
after_call-some a none c r e = ground (arith, e)
after_call-some a (some s) c r e = e

ask_control_plane-some :
    (ready : Bool) (a : Ask) (c : Client) (r : ResolvedResource)
    → (ask_control_plane ready a c).1 ≡ some r
    → a.answer ≡ some r
ask_control_plane-some true a c r e = after_call-some a a.answer c r e
ask_control_plane-some false a c r e = ground (arith, e)

after_cache-some :
    (a : Ask) (o : Option ResolvedResource) (c : Client) (r : ResolvedResource)
    → (after_cache a o c).1 ≡ some r
    → (o ≡ some r) ⊎ (a.answer ≡ some r)
after_cache-some a (some s) c r e = inl e
after_cache-some a none c r e = inr (ask_control_plane-some c.has_http_client a c r e)

-- After any history of calls on a new client, an answer of the catalogue is the answer of the
-- control plane to this very call, or one that it gave for the same name in a call of the history
-- that ended less than sixty seconds before this one began.
pub get_resource-run :
    (ready : Bool) (asks : List Ask) (a : Ask) (r : ResolvedResource)
    → (get_resource a (run ready asks)).1 ≡ some r
    → (a.answer ≡ some r) ⊎ ((at : ℕ) × WasAnswered asks a.name r at × (a.now < at + sixty_seconds))
unfolding get_resource
get_resource-run ready asks a r e =
    let c = run ready asks in
    elim (after_cache-some a (cached a.now (lookup a.name c.cache)) c r e) [
      | inr asked ↦ inl asked
      | inl kept ↦
          let (entry, found, valid, same) = cached-some a.now (lookup a.name c.cache) r kept in
          let (at, (b, among, named, answered, ended), expires) =
            (run-IsEarned ready asks).1 a.name entry found in
          inr
            (at, (b, among, named, answered ∙ ap some same, ended), ground (arith, valid, expires))
    ]

-- Where the calls of the history that found the resource ended sixty seconds before this one began
-- or earlier, and the control plane no longer answers this one, the gateway refuses the name: a
-- resource that is taken back is served for sixty seconds at most.
pub get_resource-gone :
    (ready : Bool) (asks : List Ask) (a : Ask)
    → a.answer ≡ none
    → ((b : Ask) (r : ResolvedResource)
        → IsIn b asks
        → b.name ≡ a.name
        → b.answer ≡ some r
        → b.later + sixty_seconds ≤ a.now)
    → (get_resource a (run ready asks)).1 ≡ none
get_resource-gone ready asks a silent old =
    elim (Option-cases (get_resource a (run ready asks)).1) [
      | inl refused ↦ refused
      | inr (r, served) ↦ elim (get_resource-run ready asks a r served) [
        | inl asked ↦ (let clash = sym silent ∙ asked in ground (arith, clash))
        | inr (at, (b, among, named, answered, ended), recent) ↦
            absurd (omega (arith, old b r among named answered, ap (λ t. t + sixty_seconds) ended))
      ]
    ]
