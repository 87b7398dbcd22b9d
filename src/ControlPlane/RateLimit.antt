-- ===== src/ControlPlane/RateLimit.antt =====
-- control-plane/internal/api/middleware/ratelimit.go: a limiter for each key. The token bucket of
-- golang.org/x/time/rate is a parameter; clocks are in nanoseconds. A lock makes each call one step.
pub mod Alone
use ztna_project.Base.{
  ℕ, ◌+◌, ◌-◌, Bool, true, false, not, Option, none, some, List, [], ◌∷◌, if◌then◌else◌, ltb, Text,
  is_empty, lookup, insert, keep, split_last,
}

-- rate.Limiter with the rate and the burst of the middleware: a full bucket, and Allow.
pub record Bucket : Type 1 where
  pub State : Type 0
  pub full : State
  pub allow : (now : ℕ) → State → State × Bool

pub record IpLimiter (b : Bucket) : Type 0 where
  pub limiter : b.State
  pub last_seen : ℕ

module _ (b : Bucket) where
  abbrev pub Limiters : Type 0
  Limiters = List (Text × IpLimiter b)

  -- A key that is not known starts with a full bucket.
  abbrev pub bucket_of : Option (IpLimiter b) → b.State
  bucket_of none = b.full
  bucket_of (some entry) = entry.limiter

  abbrev pub touched : (now : ℕ) → Option (IpLimiter b) → IpLimiter b
  touched now o = record { limiter = (b.allow now (bucket_of o)).0; last_seen = now }

  unfoldable pub allow : (now : ℕ) (key : Text) → Limiters → Limiters × Bool
  allow now key limiters =
      let o = lookup key limiters in
      (insert key (touched now o) limiters, (b.allow now (bucket_of o)).1)

  abbrev five_minutes : ℕ
  five_minutes = 300_000_000_000

  -- Seen five minutes ago or later.
  abbrev pub is_recent : (now : ℕ) → IpLimiter b → Bool
  is_recent now entry = not (ltb (entry.last_seen + five_minutes) now)

  -- One round of the loop of cleanup.
  unfoldable pub cleanup : (now : ℕ) → Limiters → Limiters
  cleanup now limiters = keep (is_recent now) limiters

-- Of a request: two headers, empty where they are absent, and the address of the peer.
pub record Origin : Type 0 where
  pub pep_id : Text
  pub real_ip : Text
  pub remote_addr : Text

abbrev host_part : Text → Option (Text × Text) → Text
host_part addr none = addr
host_part addr (some (host, port)) = host

-- The loop cuts the address at its last colon.
unfoldable extract_client_ip : Origin → Text
unfolding split_last
extract_client_ip r =
    if is_empty r.real_ip
    then host_part r.remote_addr (split_last b':' r.remote_addr)
    else r.real_ip

-- Handler, and HandlerByPEP, so far as the limit goes.
unfoldable pub handler : (b : Bucket) → (now : ℕ) → Origin → Limiters b → Limiters b × Bool
unfolding allow extract_client_ip
handler b now r limiters = allow b now (extract_client_ip r) limiters

unfoldable handler_by_pep : (b : Bucket) → (now : ℕ) → Origin → Limiters b → Limiters b × Bool
unfolding allow extract_client_ip
handler_by_pep b now r limiters =
    allow b now (if is_empty r.pep_id then extract_client_ip r else r.pep_id) limiters
