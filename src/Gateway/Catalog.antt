-- ===== src/Gateway/Catalog.antt =====
-- gateway/internal/infra/resource/client.go: the gateway's view of the published resources, with
-- its cache. The call of the control plane and the decoding of its answer are an argument; clocks
-- are in nanoseconds.
pub mod Fresh
use ztna_project.Base.{
  ℕ, ◌+◌, Bool, true, false, Option, none, some, List, [], ◌∷◌, if◌then◌else◌, ltb, Text, lookup,
  insert,
}
use ztna_project.Gateway.Connect.{ResolvedResource}

pub record CacheEntry : Type 0 where
  pub resource : ResolvedResource
  pub expires_at : ℕ

-- Client: whether it has an HTTP client, and the cache with its time to live.
pub record Client : Type 0 where
  pub has_http_client : Bool
  pub cache : List (Text × CacheEntry)
  pub cache_ttl : ℕ

abbrev pub sixty_seconds : ℕ
sixty_seconds = 60_000_000_000

unfoldable pub new_client : (has_http_client : Bool) → Client
new_client has_http_client = record {
  has_http_client = has_http_client;
  cache = [];
  cache_ttl = sixty_seconds;
}

-- One call: the clock as it begins and as the answer is stored, and what the control plane answers
-- if it is asked (`none` for every error, a status other than 200 among them).
pub record Ask : Type 0 where
  pub name : Text
  pub now : ℕ
  pub later : ℕ
  pub answer : Option ResolvedResource

abbrev pub cached : (now : ℕ) → Option CacheEntry → Option ResolvedResource
cached now none = none
cached now (some entry) = if ltb now entry.expires_at then some entry.resource else none

abbrev pub after_call : Ask → Option ResolvedResource → Client → Client × Option ResolvedResource
after_call a none c = (c, none)
after_call a (some r) c = (
  record c {
    cache = insert a.name (record { resource = r; expires_at = a.later + c.cache_ttl }) c.cache;
  },
  some r,
)

abbrev pub ask_control_plane :
    (has_http_client : Bool) → Ask → Client → Client × Option ResolvedResource
ask_control_plane false a c = (c, none)
ask_control_plane true a c = after_call a a.answer c

abbrev pub after_cache : Ask → Option ResolvedResource → Client → Client × Option ResolvedResource
after_cache a (some r) c = (c, some r)
after_cache a none c = ask_control_plane c.has_http_client a c

unfoldable pub get_resource : Ask → Client → Client × Option ResolvedResource
get_resource a c = after_cache a (cached a.now (lookup a.name c.cache)) c

-- A history of calls, the last one first.
unfoldable pub run : (has_http_client : Bool) → List Ask → Client
unfolding get_resource new_client
run has_http_client [] = new_client has_http_client
run has_http_client (a ∷ asks) = (get_resource a (run has_http_client asks)).0
