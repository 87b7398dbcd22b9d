-- ===== src/ControlPlane/DeviceCerts.antt =====
-- The device certificates: control-plane/internal/store/sqlite/device_certs.go and the revocation
-- list of control-plane/internal/service/credentials/device_cert.go. The table is kept by its unique
-- serial number, in the hexadecimal form of extractCertMeta; the order of the list is that of the
-- table.
pub mod Listed
pub mod Keyed
use ztna_project.Base.{
  ℕ, Bool, true, false, Option, none, some, List, [], ◌∷◌, if◌then◌else◌, ℤ, Text, codes, is_empty,
  lookup, insert, parse_hex,
}
use ztna_project.ControlPlane.Model.{Error, invalid_input, not_found, internal, Result, ok, err}

pub record DeviceCert : Type 0 where
  pub serial : Text
  pub sub : Text
  pub username : Text
  pub fingerprint : Text
  pub issued_at : Text
  pub expires_at : Text
  pub revoked : Bool
  pub revoked_at : Text
  pub revocation_reason : Text

abbrev pub CertDb : Type 0
CertDb = List (Text × DeviceCert)

-- A serial number that the table has already is refused by its constraint.
unfoldable pub store_device_cert : DeviceCert → CertDb → Result CertDb
store_device_cert cert db = elim (lookup cert.serial db) [
  | none ↦ ok (
      insert cert.serial (record cert { revoked = false; revoked_at = []; revocation_reason = [] })
        db)
  | some old ↦ err internal
]

-- No row is updated for a serial number that is unknown or revoked already.
abbrev pub revoke_row : (now reason serial : Text) → CertDb → Option DeviceCert → Result CertDb
revoke_row now reason serial db none = err not_found
revoke_row now reason serial db (some cert) =
    if cert.revoked
    then err not_found
    else ok (
        insert serial (record cert { revoked = true; revoked_at = now; revocation_reason = reason })
          db)

unfoldable pub revoke_device_cert : (now reason serial : Text) → CertDb → Result CertDb
revoke_device_cert now reason serial db = revoke_row now reason serial db (lookup serial db)

unfoldable get_device_cert : Text → CertDb → Result DeviceCert
get_device_cert serial db = elim (lookup serial db) [ none ↦ err not_found | some cert ↦ ok cert ]

unfoldable pub list_revoked : CertDb → List DeviceCert
list_revoked [] = []
list_revoked ((serial, cert) ∷ db) =
    let rest = list_revoked db in if cert.revoked then cert ∷ rest else rest

-- The serial numbers of the list; one that cannot be read is left out.
abbrev pub cons_serial : Option ℤ → List ℤ → List ℤ
cons_serial none serials = serials
cons_serial (some serial) serials = serial ∷ serials

unfoldable pub crl_serials : List DeviceCert → List ℤ
unfolding parse_hex
crl_serials [] = []
crl_serials (cert ∷ certs) = cons_serial (parse_hex cert.serial) (crl_serials certs)

unfoldable pub generate_crl : CertDb → List ℤ
unfolding list_revoked crl_serials
generate_crl db = crl_serials (list_revoked db)

-- The handler of DELETE /api/v1/admin/device-certs/{serial}, for an authenticated administrator, so
-- far as the table goes.
unfoldable pub revoke_handler : (now reason serial : Text) → CertDb → Result CertDb
unfolding revoke_device_cert
revoke_handler now reason serial db =
    if is_empty serial
    then err invalid_input
    else revoke_device_cert now (if is_empty reason then codes "admin-revocation" else reason)
        serial db
