-- ===== src/Client/Login.antt =====
-- client/internal/infra/oidc/oidc.go and client/internal/usecase/login/service.go: how the client
-- gets and keeps its tokens. The provider's answers, the clock and the file of tokens are arguments;
-- times are in nanoseconds, and a lifetime of a token is not negative.
pub mod Ends
pub mod Fresh
use ztna_project.Base.{
  ℕ, zero, suc, ◌+◌, ◌*◌, Bool, true, false, not, ◌||◌, Option, none, some, if◌then◌else◌, ltb,
  Text, codes, text_eq, is_empty,
}

-- `expires_at` is `none` for the zero time.
pub record TokenSet : Type 0 where
  pub access_token : Text
  pub refresh_token : Text
  pub id_token : Text
  pub token_type : Text
  pub expires_at : Option ℕ

pub record TokenResponse : Type 0 where
  pub access_token : Text
  pub refresh_token : Text
  pub id_token : Text
  pub token_type : Text
  pub expires_in : ℕ

abbrev pub second : ℕ
second = 1_000_000_000

abbrev pub token_set : (now : ℕ) → TokenResponse → TokenSet
token_set now r = record {
  access_token = r.access_token;
  refresh_token = r.refresh_token;
  id_token = r.id_token;
  token_type = r.token_type;
  expires_at = some (now + r.expires_in * second);
}

pub data LoginError : Type 0 where
  request_failed bad_answer no_access_token not_saved code_expired cancelled : LoginError
  refused not_stored no_refresh_token unsupported_mode missing_password : LoginError

pub data LoginResult : Type 0 where
  logged_in : TokenSet → LoginResult
  failed : LoginError → LoginResult

-- An answer without an access token is none, and the tokens must be saved.
unfoldable pub accept_tokens : (saves : Bool) → TokenSet → LoginResult
accept_tokens saves t =
    if is_empty t.access_token
    then failed no_access_token
    else if saves
    then logged_in t
    else failed not_saved

-- LoginPasswordGrantLAB: the answer is `none` where the request or its status fails.
pub data Reply : Type 0 where
  no_reply undecodable : Reply
  reply : TokenResponse → Reply

unfoldable login_password_grant_lab : (saves : Bool) (now : ℕ) → Reply → LoginResult
unfolding accept_tokens
login_password_grant_lab saves now no_reply = failed request_failed
login_password_grant_lab saves now undecodable = failed bad_answer
login_password_grant_lab saves now (reply r) = accept_tokens saves (token_set now r)

-- An answer to one poll.
pub data Poll : Type 0 where
  poll_error poll_undecodable pending slow_down expired_token other_error : Poll
  granted : TokenResponse → Poll

-- The world of the loop: in each round, whether the context is cancelled while the client waits,
-- how much longer than the interval the round takes, the answer, and whether tokens are saved.
pub record Provider : Type 0 where
  pub cancels : ℕ → Bool
  pub extra : ℕ → ℕ
  pub answer : ℕ → Poll
  pub saves : Bool

-- The loop, from round `k` at the time `now`; `none` means that the fuel ran out.
unfoldable pub poll_tokens :
    (fuel : ℕ) → Provider → (deadline k now interval : ℕ) → Option LoginResult
unfolding accept_tokens
poll_tokens zero p deadline k now interval = none
poll_tokens (suc fuel) p deadline k now interval =
    let later = now + interval + p.extra k in
    let again = poll_tokens fuel p deadline (suc k) later interval in
    let slower = poll_tokens fuel p deadline (suc k) later (interval + 2 * second) in
    if ltb deadline now
    then some (failed code_expired)
    else if p.cancels k
    then some (failed cancelled)
    else elim (p.answer k) [
      | poll_error ↦ some (failed request_failed)
      | poll_undecodable ↦ some (failed bad_answer)
      | granted r ↦ some (accept_tokens p.saves (token_set later r))
      | pending ↦ again
      | slow_down ↦ slower
      | expired_token ↦ some (failed code_expired)
      | other_error ↦ some (failed refused)
    ]

pub record DeviceCode : Type 0 where
  pub device_code : Text
  pub user_code : Text
  pub expires_in : ℕ
  pub interval : ℕ

pub data DeviceReply : Type 0 where
  no_device_reply undecodable_code : DeviceReply
  code : DeviceCode → DeviceReply

-- The interval and the time that the code is valid, with their defaults.
abbrev pub poll_interval : DeviceCode → ℕ
poll_interval c = if ltb 0 c.interval then c.interval * second else 5 * second

abbrev pub valid_for : DeviceCode → ℕ
valid_for c = if ltb 0 c.expires_in then c.expires_in * second else 600 * second

-- DeviceFlowLogin, with fuel for one round in each nanosecond that the code is valid.
unfoldable pub device_flow_login : Provider → (now : ℕ) → DeviceReply → Option LoginResult
unfolding poll_tokens
device_flow_login p now no_device_reply = some (failed request_failed)
device_flow_login p now undecodable_code = some (failed bad_answer)
device_flow_login p now (code c) =
    if is_empty c.device_code || is_empty c.user_code
    then some (failed bad_answer)
    else poll_tokens (valid_for c + 2) p (now + valid_for c) 0 now (poll_interval c)

-- Run of the login service; a mode is a text.
unfoldable run_login :
    (mode username password : Text)
    → (device : Option LoginResult) (grant : LoginResult) → Option LoginResult
run_login mode username password device grant =
    if is_empty mode || (text_eq mode (codes "auto") || text_eq mode (codes "device_flow"))
    then device
    else if text_eq mode (codes "password_grant_lab")
    then (if is_empty username || is_empty password
        then some (failed missing_password)
        else some grant)
    else some (failed unsupported_mode)

-- The file of tokens; `none` where it cannot be read.
abbrev pub Store : Type 0
Store = Option TokenSet

abbrev pub kept_refresh : TokenSet → TokenSet → TokenSet
kept_refresh old new =
    if is_empty new.refresh_token then record new { refresh_token = old.refresh_token } else new

abbrev pub stored_if : LoginResult → Store → LoginResult × Store
stored_if (logged_in t) s = (logged_in t, some t)
stored_if (failed e) s = (failed e, s)

abbrev pub refreshed_by : (saves : Bool) (now : ℕ) → TokenSet → Reply → LoginResult
refreshed_by saves now old no_reply = failed request_failed
refreshed_by saves now old undecodable = failed bad_answer
refreshed_by saves now old (reply r) = accept_tokens saves (kept_refresh old (token_set now r))

-- RefreshAccessToken: `exchange` is the provider's answer to a request with a refresh token. The old
-- refresh token stays where the answer brings none.
unfoldable pub refresh_access_token :
    (saves : Bool) (now : ℕ) → (exchange : Text → Reply) → Store → LoginResult × Store
unfolding accept_tokens
refresh_access_token saves now exchange none = (failed not_stored, none)
refresh_access_token saves now exchange (some t) =
    if is_empty t.refresh_token
    then (failed no_refresh_token, some t)
    else stored_if (refreshed_by saves now t (exchange t.refresh_token)) (some t)

abbrev pub token_expiry_margin : ℕ
token_expiry_margin = 30 * second

-- Valid for longer than the margin, or without an end.
abbrev pub is_fresh : (now : ℕ) → Option ℕ → Bool
is_fresh now none = true
is_fresh now (some end) = ltb (now + token_expiry_margin) end

pub data Access : Type 0 where
  access : Text → Access
  no_access : LoginError → Access

abbrev pub access_of : LoginResult × Store → Access × Store
access_of (logged_in t, s) = (access t.access_token, s)
access_of (failed e, s) = (no_access e, s)

-- GetValidAccessToken, at `now`; a refresh ends at `later`.
unfoldable pub get_valid_access_token :
    (saves : Bool) (now later : ℕ) → (exchange : Text → Reply) → Store → Access × Store
unfolding refresh_access_token
get_valid_access_token saves now later exchange none = (no_access not_stored, none)
get_valid_access_token saves now later exchange (some t) =
    if is_empty t.access_token
    then (no_access no_access_token, some t)
    else if is_fresh now t.expires_at
    then (access t.access_token, some t)
    else if is_empty t.refresh_token
    then (no_access no_refresh_token, some t)
    else access_of (refresh_access_token saves later exchange (some t))
