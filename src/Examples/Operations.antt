-- ===== src/Examples/Operations.antt =====
-- The theorems on configuration, limits, operations and the client at concrete inputs.
use ztna_project.Base.{
  ℕ, ◌≡◌, is_empty, Text, if◌then◌else◌, refl, ◌⊎◌, true, false, none, some, List, [], ◌∷◌, ltb,
  ◌-◌, ℤ, pos, codes, text_eq, trim_space, to_lower, to_upper, has_prefix, first_failing,
}
use ztna_project.ControlPlane.Model.{Subject, ok}
use ztna_project.ControlPlane.Config.{
  Config, apply_defaults, apply_server_defaults, oidc_defaults, pep_server_defaults, pep_defaults,
  sshca_defaults, device_ca_defaults,
}
use ztna_project.ControlPlane.Config.Checks.{
  Environment, load, loaded, validate, checks, server_checks, oidc_checks, database_checks,
  ttl_checks, sshca_checks, device_ca_checks, pep_checks, has_other_alg, is_http_issuer,
  has_other_key_type, has_blank,
}
use ztna_project.ControlPlane.Config.Sound.{IsSound, IsServed, load-IsSound}
use ztna_project.ControlPlane.RateLimit.{Bucket, bucket_of, allow}
use ztna_project.ControlPlane.RateLimit.Alone.{Event, asks, cleans, alone, allow-run}
use ztna_project.ControlPlane.RateLimit.Alone
use ztna_project.ControlPlane.Gateways.{GatewayDb}
use ztna_project.ControlPlane.Gateways.Beat.{failed, version_of, beat, IsBeat, beat_lem}
use ztna_project.ControlPlane.Authorize.{AuditEvent}
use ztna_project.ControlPlane.PolicyStore.{PolicyDb, run, empty_db, get_active}
use ztna_project.ControlPlane.PolicyStore.Effects.{AreRowsOf}
use ztna_project.ControlPlane.Model.{PolicyVersion, PolicyRule, unauthorized}
use ztna_project.ControlPlane.PolicyAdmin.{
  Desk, create_handler, activate_handler, AreAudited, create_handler-activate_handler,
}
use ztna_project.Gateway.Revocation.{new_store}
use ztna_project.Gateway.Listener.{
  Round, presents, accept_error, closed, listen, all_handed, before_close, ever_closed, listen_lem,
}
use ztna_project.Client.Login.{
  TokenSet, Reply, reply, no_reply, accept_tokens, refresh_access_token, Provider, DeviceCode, code,
  pending, device_flow_login, access, get_valid_access_token,
}
use ztna_project.Client.Login.Ends.{Ends, device_flow_login-Ends}
use ztna_project.Client.Login.Fresh.{IsFresh, IsRenewed, get_valid_access_token-access}
use ztna_project.Examples.Store.{ops_rule, stored_rule, policy_calls, ops_normal, old_gateway}
use ztna_project.Examples.Connections.{ann_cert}

-- Three requests fill a bucket, and it is never filled again.
abbrev three_requests : Bucket
three_requests = record { State = ℕ; full = 3; allow = λ now s. (s - 1, ltb 0 s) }

abbrev requests : List Event
requests = asks 4 (codes "b") ∷ cleans 3 ∷ asks 2 (codes "a") ∷ asks 1 (codes "b") ∷ []

allow-run_example :
    (allow three_requests 5 (codes "a") (Alone.run three_requests requests)).1
    ≡ (three_requests.allow 5
        (bucket_of three_requests (alone three_requests (codes "a") requests))).1
allow-run_example = allow-run three_requests 5 (codes "a") requests

abbrev live_gateways : GatewayDb
live_gateways = (codes "gw-1", record old_gateway { active = true }) ∷ []

beat_example :
    (is_empty (codes "gw-1") ≡ true
      → beat true (codes "t2") (codes "gw-1") none live_gateways
        ≡ (live_gateways, failed unauthorized))
    × (is_empty (codes "gw-1") ≡ false
        → IsBeat true
            (codes "t2")
            (codes "gw-1")
            (version_of none)
            live_gateways
            (beat true (codes "t2") (codes "gw-1") none live_gateways))
beat_example = beat_lem true (codes "t2") (codes "gw-1") none live_gateways

abbrev root : Subject
root = record { sub = codes "u-0"; username = codes "root"; groups = codes "admins" ∷ [] }

abbrev desk : Desk
desk = record { now = codes "t2"; remote_addr = codes "10.0.0.7:5000"; audit_stores = true }

create_handler-activate_handler_example :
    (id : ℤ) × (db' : PolicyDb) × (db'' : PolicyDb) × (events' : List AuditEvent) × (events'' : List
      AuditEvent)
    × (v : PolicyVersion) × (rows : List PolicyRule) × (create_handler desk
          (some root)
          (some (ops_rule ∷ []))
          (run policy_calls empty_db)
          []
        ≡ (ok id, db', events'))
    × (activate_handler desk (some root) (some id) db' events' ≡ (none, db'', events''))
    × (get_active db'' ≡ ok (record { version = v; rules = rows }))
    × (v.id ≡ id)
    × AreRowsOf id (ops_rule ∷ []) rows
    × AreAudited desk root [] events''
create_handler-activate_handler_example =
    create_handler-activate_handler policy_calls desk root (ops_rule ∷ []) (stored_rule ∷ []) []
      refl ops_normal

abbrev rounds : List Round
rounds =
    (accept_error, none)
    ∷ (presents ann_cert, some new_store)
    ∷ (closed, none)
    ∷ (presents ann_cert, none)
    ∷ []

listen_example : listen rounds ≡ (all_handed (before_close rounds), ever_closed rounds)
listen_example = listen_lem rounds

-- A user who never answers, and a provider that takes no time.
abbrev patient : Provider
patient = record { cancels = λ k. false; extra = λ k. 0; answer = λ k. pending; saves = true }

abbrev one_second : DeviceCode
one_second = record { device_code = codes "d"; user_code = codes "u"; expires_in = 1; interval = 1 }

device_flow_login_example : Ends (device_flow_login patient 7 (code one_second))
device_flow_login_example = device_flow_login-Ends patient 7 (code one_second)

abbrev held : TokenSet
held = record {
  access_token = codes "at";
  refresh_token = codes "rt";
  id_token = [];
  token_type = codes "Bearer";
  expires_at = some 90_000_000_000;
}

-- The provider knows the refresh token, and gives no new one.
abbrev renew : Text → Reply
renew token =
    if text_eq token (codes "rt")
    then reply (record {
      access_token = codes "at2";
      refresh_token = [];
      id_token = [];
      token_type = codes "Bearer";
      expires_in = 60;
    })
    else no_reply

abbrev renewed : TokenSet
renewed = record held { access_token = codes "at2"; expires_at = some 149_000_000_000 }

held_access :
    get_valid_access_token true 70_000_000_000 89_000_000_000 renew (some held)
    ≡ (access (codes "at2"), some renewed)
unfolding get_valid_access_token refresh_access_token accept_tokens text_eq
held_access = refl

get_valid_access_token_example :
    (t : TokenSet) × (some held ≡ some t)
    × (((t.access_token ≡ codes "at2")
          × IsFresh 70_000_000_000 t.expires_at
          × (some renewed ≡ some held))
        ⊎ IsRenewed 70_000_000_000 89_000_000_000 renew t (codes "at2") (some renewed))
get_valid_access_token_example =
    get_valid_access_token-access true 70_000_000_000 89_000_000_000 renew (some held) (codes "at2")
      (some renewed) held_access

abbrev lab : Environment
lab = record { parse_duration = λ t. some (pos 60); exists_file = λ t. true }

abbrev file : Config
file = record {
  server = record {
    address = [];
    port = pos 0;
    read_timeout = [];
    write_timeout = [];
    idle_timeout = [];
    read_header_timeout = [];
    tls = record {
      enabled = true;
      cert_file = codes "crt";
      key_file = codes "key";
      client_ca_file = codes "ca";
      require_client_auth = false;
    };
  };
  pep_server = record {
    address = [];
    port = pos 0;
    read_timeout = [];
    write_timeout = [];
    idle_timeout = [];
    read_header_timeout = [];
    tls = record {
      enabled = false;
      cert_file = [];
      key_file = [];
      client_ca_file = [];
      require_client_auth = false;
    };
  };
  database = record { path = codes "db"; busy_timeout = []; pragmas = [] };
  oidc = record {
    issuer = codes "https://idp";
    audience = codes "ztna";
    username_claim = codes "name";
    groups_claim = [];
    allowed_algs = [];
    jwks_cache_ttl = [];
    audience_mode = [];
    admin_group = codes "admins";
    allow_http_issuer = false;
    ca_file = [];
    insecure_skip_verify = false;
  };
  pep = record {
    auth_mode = [];
    tokens = [];
    decision_ttl_seconds = pos 0;
    require_registration = none;
    revoked_pep_ids = [];
  };
  sshca = record {
    key_path = codes "ssh";
    default_ttl = [];
    min_ttl = [];
    max_ttl = [];
    allowed_principals = [];
  };
  device_ca = record {
    key_path = [];
    cert_path = [];
    default_ttl = [];
    min_ttl = [];
    max_ttl = [];
    allowed_key_types = [];
  };
  policy_seed_file = [];
  resource_seed_file = [];
  log_level = [];
  log_format = [];
}

abbrev config : Config
config = apply_defaults file

file_loaded : load lab (some file) ≡ loaded config
unfolding load apply_defaults apply_server_defaults oidc_defaults pep_server_defaults pep_defaults
    sshca_defaults device_ca_defaults validate checks server_checks oidc_checks database_checks
    ttl_checks sshca_checks device_ca_checks pep_checks has_other_alg is_http_issuer
    has_other_key_type has_blank first_failing to_upper to_lower trim_space has_prefix text_eq
file_loaded = refl

load-IsSound_example : IsSound lab config × IsServed config
load-IsSound_example = load-IsSound lab file config file_loaded
