-- ===== src/Client/Login/Fresh.antt =====
-- Which access token the client uses, and what it keeps.
use ztna_project.Base.{
  ℕ, ◌+◌, ◌*◌, ◌<◌, ◌≤◌, ◌≡◌, refl, sym, ap, ◌∙◌, ◌⊎◌, inl, inr, Bool, true, false, Option, none,
  some, arith, Bool-cases, ltb→lt, Text, is_empty,
}
use ztna_project.Client.Login.{
  TokenSet, TokenResponse, token_set, LoginResult, logged_in, failed, accept_tokens, Reply,
  no_reply, undecodable, reply, Store, kept_refresh, stored_if, refreshed_by, refresh_access_token,
  token_expiry_margin, is_fresh, access, no_access, access_of, get_valid_access_token, not_stored,
  no_refresh_token, no_access_token,
}

-- The stored token ends later than thirty seconds from now, or it has no end.
abbrev pub IsFresh : (now : ℕ) → Option ℕ → Type 0
IsFresh now expires_at =
    (expires_at ≡ none) ⊎ ((end : ℕ) × (expires_at ≡ some end) × (now + 30_000_000_000 < end))

-- The stored token ends within thirty seconds. The provider granted the token for the stored refresh
-- token, and what is stored now is what it granted: it ends when the provider says, and it has the
-- refresh token that came, or the old one where none came.
abbrev pub IsRenewed :
    (now later : ℕ)
    → (exchange : Text → Reply) (old : TokenSet) (token : Text) (after : Store) → Type 0
IsRenewed now later exchange old token after =
    (r : TokenResponse) × (new : TokenSet) × (is_empty old.refresh_token ≡ false)
    × ((end : ℕ) × (old.expires_at ≡ some end) × (end ≤ now + 30_000_000_000))
    × (exchange old.refresh_token ≡ reply r)
    × (after ≡ some new)
    × (token ≡ r.access_token)
    × (new.access_token ≡ r.access_token)
    × (new.id_token ≡ r.id_token)
    × (new.token_type ≡ r.token_type)
    × (new.expires_at ≡ some (later + r.expires_in * 1_000_000_000))
    × (is_empty r.refresh_token ≡ false → new.refresh_token ≡ r.refresh_token)
    × (is_empty r.refresh_token ≡ true → new.refresh_token ≡ old.refresh_token)

is_fresh-false :
    (now : ℕ) (o : Option ℕ)
    → is_fresh now o ≡ false
    → (end : ℕ) × (o ≡ some end) × (end ≤ now + 30_000_000_000)
is_fresh-false now none e = ground (arith, e)
is_fresh-false now (some end) e = (end, refl, ground (arith, e))

kept_refresh-IsRenewed :
    (now later : ℕ) (exchange : Text → Reply) (old new : TokenSet) (r : TokenResponse)
    (token : Text) (after : Store)
    → is_empty old.refresh_token ≡ false
    → (end : ℕ) × (old.expires_at ≡ some end) × (end ≤ now + 30_000_000_000)
    → exchange old.refresh_token ≡ reply r
    → kept_refresh old (token_set later r) ≡ new
    → after ≡ some new
    → new.access_token ≡ token
    → IsRenewed now later exchange old token after
kept_refresh-IsRenewed now later exchange old new r token after way stale answered kept wrote same =
    elim (Bool-cases (is_empty r.refresh_token)) [
      | inl empty ↦
          let eq : record (token_set later r) { refresh_token = old.refresh_token } ≡ new =
            rw (empty, kept_refresh) at kept in
          let access : new.access_token ≡ r.access_token = sym (ap (λ x. x.access_token) eq) in
          (
            r,
            new,
            way,
            stale,
            answered,
            wrote,
            sym same ∙ access,
            access,
            sym (ap (λ x. x.id_token) eq),
            sym (ap (λ x. x.token_type) eq),
            sym (ap (λ x. x.expires_at) eq),
            (λ given. ground (arith, empty, given)),
            (λ gone. sym (ap (λ x. x.refresh_token) eq)),
          )
      | inr filled ↦
          let eq : token_set later r ≡ new = rw (filled, kept_refresh) at kept in
          let access : new.access_token ≡ r.access_token = sym (ap (λ x. x.access_token) eq) in
          (
            r,
            new,
            way,
            stale,
            answered,
            wrote,
            sym same ∙ access,
            access,
            sym (ap (λ x. x.id_token) eq),
            sym (ap (λ x. x.token_type) eq),
            sym (ap (λ x. x.expires_at) eq),
            (λ given. sym (ap (λ x. x.refresh_token) eq)),
            (λ gone. ground (arith, filled, gone)),
          )
    ]

is_fresh-IsFresh : (now : ℕ) (o : Option ℕ) → is_fresh now o ≡ true → IsFresh now o
is_fresh-IsFresh now none e = inl refl
is_fresh-IsFresh now (some end) e = inr (end, refl, ltb→lt (now + token_expiry_margin) end e)

access_of-access :
    (p : LoginResult × Store) (token : Text) (after : Store)
    → access_of p ≡ (access token, after)
    → (t : TokenSet) × (p ≡ (logged_in t, after)) × (t.access_token ≡ token)
access_of-access (logged_in t, s) token after e =
    let same : access t.access_token ≡ access token = ap (λ q. q.0) e in
    (t, ap (λ s. (logged_in t, s)) (ap (λ q. q.1) e), ground (arith, same))
access_of-access (failed problem, s) token after e =
    let clash : no_access problem ≡ access token = ap (λ q. q.0) e in ground (arith, clash)

stored_if-logged_in :
    (r : LoginResult) (s : Store) (t : TokenSet) (after : Store)
    → stored_if r s ≡ (logged_in t, after)
    → (r ≡ logged_in t) × (after ≡ some t)
stored_if-logged_in (logged_in u) s t after e =
    let same : logged_in u ≡ logged_in t = ap (λ q. q.0) e in
    let eq : u ≡ t = ground (arith, same) in (same, sym (ap (λ q. q.1) e) ∙ ap some eq)
stored_if-logged_in (failed problem) s t after e =
    let clash : failed problem ≡ logged_in t = ap (λ q. q.0) e in ground (arith, clash)

accept_tokens-eq : (saves : Bool) (t u : TokenSet) → accept_tokens saves t ≡ logged_in u → t ≡ u
unfolding accept_tokens
accept_tokens-eq saves t u e = elim (Bool-cases (is_empty t.access_token)) [
  | inl empty ↦ ground (arith, e, empty)
  | inr filled ↦ elim (Bool-cases saves) [
    | inl saved ↦
        let same : logged_in t ≡ logged_in u = rw (filled, saved, accept_tokens) at e in
        ground (arith, same)
    | inr lost ↦ ground (arith, e, filled, lost)
  ]
]

refreshed_by-logged_in :
    (saves : Bool) (later : ℕ) (old t : TokenSet) (answer : Reply)
    → refreshed_by saves later old answer ≡ logged_in t
    → (r : TokenResponse) × (answer ≡ reply r) × (kept_refresh old (token_set later r) ≡ t)
refreshed_by-logged_in saves later old t no_reply e = ground (arith, e)
refreshed_by-logged_in saves later old t undecodable e = ground (arith, e)
refreshed_by-logged_in saves later old t (reply r) e =
    (r, refl, accept_tokens-eq saves (kept_refresh old (token_set later r)) t e)

-- An access token that the client uses is the stored one, which does not end within thirty seconds,
-- and then nothing is stored anew; or the stored one does, and the provider granted the token just
-- now for the stored refresh token: then the file holds what was granted, with its end counted from
-- the answer, and with the old refresh token where no new one came.
pub get_valid_access_token-access :
    (saves : Bool) (now later : ℕ) (exchange : Text → Reply) (s : Store) (token : Text)
    (after : Store)
    → get_valid_access_token saves now later exchange s ≡ (access token, after)
    → (t : TokenSet) × (s ≡ some t)
      × (((t.access_token ≡ token) × IsFresh now t.expires_at × (after ≡ s))
          ⊎ IsRenewed now later exchange t token after)
unfolding get_valid_access_token refresh_access_token
get_valid_access_token-access saves now later exchange none token after e =
    let clash : no_access not_stored ≡ access token = ap (λ q. q.0) e in ground (arith, clash)
get_valid_access_token-access saves now later exchange (some t) token after e =
    elim (Bool-cases (is_empty t.access_token)) [
      | inl empty ↦
          let h : (no_access no_access_token, some t) ≡ (access token, after) =
            rw (empty, get_valid_access_token) at e in
          let clash : no_access no_access_token ≡ access token = ap (λ q. q.0) h in
          ground (arith, clash)
      | inr filled ↦ elim (Bool-cases (is_fresh now t.expires_at)) [
        | inl fresh ↦
            let h : (access t.access_token, some t) ≡ (access token, after) =
              rw (filled, fresh, get_valid_access_token) at e in
            let same : access t.access_token ≡ access token = ap (λ q. q.0) h in
            (
              t,
              refl,
              inl (
                ground (arith, same),
                is_fresh-IsFresh now t.expires_at fresh,
                sym (ap (λ q. q.1) h),
              ),
            )
        | inr stale ↦ elim (Bool-cases (is_empty t.refresh_token)) [
          | inl no_way ↦
              let h : (no_access no_refresh_token, some t) ≡ (access token, after) =
                rw (filled, stale, no_way, get_valid_access_token) at e in
              let clash : no_access no_refresh_token ≡ access token = ap (λ q. q.0) h in
              ground (arith, clash)
          | inr way ↦
              let h : access_of
                    (stored_if (refreshed_by saves later t (exchange t.refresh_token)) (some t))
                  ≡ (access token, after) =
                rw (filled, stale, way, get_valid_access_token, refresh_access_token) at e in
              let (u, logged, same) = access_of-access _ token after h in
              let (granted, written) =
                stored_if-logged_in (refreshed_by saves later t (exchange t.refresh_token)) (some t)
                  u after logged in
              let (r, answered, kept) =
                refreshed_by-logged_in saves later t u (exchange t.refresh_token) granted in
              (
                t,
                refl,
                inr (
                    kept_refresh-IsRenewed now later exchange t u r token after way
                      (is_fresh-false now t.expires_at stale) answered kept written same),
              )
        ]
      ]
    ]
