-- ===== src/Client/Login/Ends.antt =====
-- The polling of the device flow ends.
use ztna_project.Base.{
  ℕ, zero, suc, ◌+◌, ◌*◌, ◌≤◌, ◌≡◌, refl, sym, ap, ◌∙◌, inl, inr, Bool, true, false, ◌||◌, Option,
  some, arith, Bool-cases, ltb, is_empty,
}
use ztna_project.Client.Login.{
  TokenSet, TokenResponse, second, token_set, LoginResult, logged_in, failed, accept_tokens, Poll,
  poll_error, poll_undecodable, pending, slow_down, expired_token, other_error, granted, Provider,
  poll_tokens, DeviceCode, DeviceReply, no_device_reply, undecodable_code, code, poll_interval,
  valid_for, device_flow_login, code_expired, cancelled, request_failed, bad_answer, refused,
}

abbrev pub Ends : Option LoginResult → Type 0
Ends o = (r : LoginResult) × (o ≡ some r)

Poll-Ends :
    (a : Poll) (saves : Bool) (later : ℕ) (again slower : Option LoginResult)
    → Ends again
    → Ends slower
    → Ends (elim a [
      | poll_error ↦ some (failed request_failed)
      | poll_undecodable ↦ some (failed bad_answer)
      | granted r ↦ some (accept_tokens saves (token_set later r))
      | pending ↦ again
      | slow_down ↦ slower
      | expired_token ↦ some (failed code_expired)
      | other_error ↦ some (failed refused)
    ])
Poll-Ends poll_error saves later again slower e f = (_, refl)
Poll-Ends poll_undecodable saves later again slower e f = (_, refl)
Poll-Ends (granted r) saves later again slower e f = (_, refl)
Poll-Ends pending saves later again slower e f = e
Poll-Ends slow_down saves later again slower e f = f
Poll-Ends expired_token saves later again slower e f = (_, refl)
Poll-Ends other_error saves later again slower e f = (_, refl)

-- Every round takes at least the interval, so fuel for each nanosecond up to the deadline is enough.
poll_tokens-Ends :
    (fuel : ℕ) (p : Provider) (deadline k now interval : ℕ)
    → 1 ≤ interval
    → 1 ≤ fuel
    → deadline + 2 ≤ now + fuel
    → Ends (poll_tokens fuel p deadline k now interval)
unfolding poll_tokens
poll_tokens-Ends zero p deadline k now interval positive fuelled enough = absurd (omega arith)
poll_tokens-Ends (suc fuel) p deadline k now interval positive fuelled enough =
    elim (Bool-cases (ltb deadline now)) [
      | inl over ↦ (failed code_expired, rw over refl)
      | inr open_still ↦ elim (Bool-cases (p.cancels k)) [
        | inl gone ↦ (failed cancelled, rw (open_still, gone) refl)
        | inr waits ↦
            let before : now ≤ deadline = ground (arith, open_still) in
            let later = now + interval + p.extra k in
            rw (open_still, waits)
              (Poll-Ends (p.answer k) p.saves later _ _
                (poll_tokens-Ends fuel p deadline (suc k) later interval positive (omega arith)
                  (omega arith))
                (poll_tokens-Ends fuel p deadline (suc k) later (interval + 2 * second)
                  (omega arith) (omega arith) (omega arith)))
      ]
    ]

poll_interval-positive : (c : DeviceCode) → 1 ≤ poll_interval c
poll_interval-positive c = ground arith

-- Whatever the provider answers and however long each round takes, a login by the device flow ends:
-- the fuel of the model, a round for each nanosecond that the code is valid, is never used up.
pub device_flow_login-Ends :
    (p : Provider) (now : ℕ) (reply : DeviceReply) → Ends (device_flow_login p now reply)
unfolding device_flow_login
device_flow_login-Ends p now no_device_reply = (failed request_failed, refl)
device_flow_login-Ends p now undecodable_code = (failed bad_answer, refl)
device_flow_login-Ends p now (code c) =
    elim (Bool-cases (is_empty c.device_code || is_empty c.user_code)) [
      | inl empty ↦ (failed bad_answer, rw empty refl)
      | inr filled ↦ rw filled (
          poll_tokens-Ends (valid_for c + 2) p (now + valid_for c) 0 now (poll_interval c)
            (poll_interval-positive c) (omega arith) (omega arith))
    ]

-- The provider granted these tokens in some round, and they were saved.
abbrev IsGrantedBy : Provider → TokenSet → Type 0
IsGrantedBy p t =
    (k : ℕ) × (later : ℕ) × (r : TokenResponse) × (p.answer k ≡ granted r)
    × (token_set later r ≡ t)
    × (is_empty t.access_token ≡ false)
    × (p.saves ≡ true)

accept_tokens-logged_in :
    (saves : Bool) (t t' : TokenSet)
    → accept_tokens saves t ≡ logged_in t'
    → (t ≡ t') × (is_empty t'.access_token ≡ false) × (saves ≡ true)
unfolding accept_tokens
accept_tokens-logged_in true t t' e = elim (Bool-cases (is_empty t.access_token)) [
  | inl empty ↦ ground (arith, e, empty)
  | inr filled ↦
      let same : logged_in t ≡ logged_in t' = rw (filled, accept_tokens) at e in
      let eq : t ≡ t' = ground (arith, same) in
      (eq, sym (ap (λ (x : TokenSet). is_empty x.access_token) eq) ∙ filled, refl)
]
accept_tokens-logged_in false t t' e = ground (arith, e)

some-injective : {A : Type 0} {x y : A} → some x ≡ some y → x ≡ y
some-injective e = ground (arith, e)

Poll-IsGrantedBy :
    (a : Poll) (p : Provider) (k later : ℕ) (again slower : Option LoginResult) (t : TokenSet)
    → p.answer k ≡ a
    → (again ≡ some (logged_in t) → IsGrantedBy p t)
    → (slower ≡ some (logged_in t) → IsGrantedBy p t)
    → (elim a [
      | poll_error ↦ some (failed request_failed)
      | poll_undecodable ↦ some (failed bad_answer)
      | granted r ↦ some (accept_tokens p.saves (token_set later r))
      | pending ↦ again
      | slow_down ↦ slower
      | expired_token ↦ some (failed code_expired)
      | other_error ↦ some (failed refused)
    ])
      ≡ some (logged_in t)
    → IsGrantedBy p t
Poll-IsGrantedBy poll_error p k later again slower t a e f h = ground (arith, h)
Poll-IsGrantedBy poll_undecodable p k later again slower t a e f h = ground (arith, h)
Poll-IsGrantedBy (granted r) p k later again slower t a e f h =
    let (same, filled, saved) =
      accept_tokens-logged_in p.saves (token_set later r) t (some-injective h) in
    (k, later, r, a, same, filled, saved)
Poll-IsGrantedBy pending p k later again slower t a e f h = e h
Poll-IsGrantedBy slow_down p k later again slower t a e f h = f h
Poll-IsGrantedBy expired_token p k later again slower t a e f h = ground (arith, h)
Poll-IsGrantedBy other_error p k later again slower t a e f h = ground (arith, h)

poll_tokens-IsGrantedBy :
    (fuel : ℕ) (p : Provider) (deadline k now interval : ℕ) (t : TokenSet)
    → poll_tokens fuel p deadline k now interval ≡ some (logged_in t)
    → IsGrantedBy p t
unfolding poll_tokens
poll_tokens-IsGrantedBy zero p deadline k now interval t h = ground (arith, h)
poll_tokens-IsGrantedBy (suc fuel) p deadline k now interval t h =
    elim (Bool-cases (ltb deadline now)) [
      | inl over ↦ ground (arith, h, over)
      | inr open_still ↦ elim (Bool-cases (p.cancels k)) [
        | inl gone ↦ ground (arith, h, open_still, gone)
        | inr waits ↦
            let later = now + interval + p.extra k in
            Poll-IsGrantedBy (p.answer k) p k later _ _ t refl
              (poll_tokens-IsGrantedBy fuel p deadline (suc k) later interval t)
              (poll_tokens-IsGrantedBy fuel p deadline (suc k) later (interval + 2 * second) t)
              (rw (open_still, waits, poll_tokens) at h)
      ]
    ]

-- A login by the device flow succeeds only with tokens that the provider granted in one of the
-- polls, with an access token, and only when they were saved.
device_flow_login-IsGrantedBy :
    (p : Provider) (now : ℕ) (reply : DeviceReply) (t : TokenSet)
    → device_flow_login p now reply ≡ some (logged_in t)
    → IsGrantedBy p t
unfolding device_flow_login
device_flow_login-IsGrantedBy p now no_device_reply t h = ground (arith, h)
device_flow_login-IsGrantedBy p now undecodable_code t h = ground (arith, h)
device_flow_login-IsGrantedBy p now (code c) t h =
    elim (Bool-cases (is_empty c.device_code || is_empty c.user_code)) [
      | inl empty ↦
          let clash : some (failed bad_answer) ≡ some (logged_in t) =
            rw (empty, device_flow_login) at h in
          ground (arith, clash)
      | inr filled ↦
          poll_tokens-IsGrantedBy (valid_for c + 2) p (now + valid_for c) 0 now (poll_interval c) t
            (rw (filled, device_flow_login) at h)
    ]
