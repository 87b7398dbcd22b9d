-- ===== src/Gateway/Revocation.antt =====
-- gateway/internal/infra/revocation/crl.go: the serial numbers of the revoked certificates, and the
-- callback of gateway/internal/bootstrap/app.go that ends the sessions of a certificate when the
-- list names it for the first time. What the download and x509.ParseRevocationList yield is an
-- argument, `none` where one of them fails.
pub mod Refresh
use ztna_project.Base.{
  ℕ, Bool, Option, none, some, List, [], ◌∷◌, ◌++◌, if◌then◌else◌, Text, member, length,
}
use ztna_project.Gateway.Session.{Manager, kill_by_serial}

-- The set is a list, which may hold a serial number twice.
pub record Store : Type 0 where
  pub revoked : List Text
  pub last_fetch : ℕ

unfoldable pub new_store : Store
new_store = record { revoked = []; last_fetch = 0 }

unfoldable pub is_revoked : Text → Store → Bool
unfolding member
is_revoked serial store = member serial store.revoked

unfoldable pub replace : List Text → Store → Store
replace serials store = record store { revoked = serials }

-- The serial numbers of the new list that the old one does not have.
unfoldable pub newly_revoked : List Text → Store → List Text
unfolding is_revoked
newly_revoked [] store = []
newly_revoked (serial ∷ serials) store =
    let rest = newly_revoked serials store in
    if is_revoked serial store then rest else serial ∷ rest

-- The callback: the new manager and the contexts that were cancelled.
unfoldable pub on_update : List Text → Manager → Manager × List ℕ
on_update [] m = (m, [])
on_update (serial ∷ serials) m =
    let (killed, cancelled, _) = kill_by_serial serial m in
    let (rest, more) = on_update serials killed in (rest, cancelled ++ more)

-- A refresh that fails changes nothing.
unfoldable pub fetch_and_update :
    (now : ℕ) → Option (List Text) → Store → Manager → Store × Manager × List ℕ
unfolding newly_revoked replace on_update
fetch_and_update now none store m = (store, m, [])
fetch_and_update now (some serials) store m =
    let (m', cancelled) = on_update (newly_revoked serials store) m in
    (record (replace serials store) { last_fetch = now }, m', cancelled)
