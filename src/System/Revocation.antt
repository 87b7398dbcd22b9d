-- ===== src/System/Revocation.antt =====
-- The way of a revocation: the table of the control plane, the list that the gateway downloads, and
-- its sessions. Signing, encoding and parsing the list keep the serial numbers, which is what the
-- X.509 libraries of both sides document.
use ztna_project.Base.{
  ℕ, suc, ◌≡◌, ◌≢◌, ap, sym, ◌∙◌, some, List, [], ◌∷◌, map, arith, ℤ, pos, negsuc, Text, member,
  All, hex, format_ℤ, format_ℕ-cons,
}
use ztna_project.ControlPlane.Model.{ok}
use ztna_project.ControlPlane.DeviceCerts.{CertDb, revoke_device_cert, generate_crl}
use ztna_project.ControlPlane.DeviceCerts.Listed.{IsKeyed, revoke_device_cert-listed}
use ztna_project.Gateway.Session.{Session, Manager, get_session}
use ztna_project.Gateway.Session.Limits.{IsValid}
use ztna_project.Gateway.Revocation.{Store, fetch_and_update, is_revoked, replace}
use ztna_project.Gateway.Revocation.Refresh.{NoneRevoked, fetch_and_update-NoneRevoked}

-- The list as the gateway reads it: serial numbers in decimal.
abbrev pub downloaded : CertDb → List Text
downloaded db = map format_ℤ (generate_crl db)

format_ℤ-filled : (z : ℤ) → format_ℤ z ≢ []
unfolding format_ℤ
format_ℤ-filled (pos n) =
    λ empty. (let (d, s, e) = format_ℕ-cons n in let clash = sym e ∙ empty in ground (arith, clash))
format_ℤ-filled (negsuc n) = λ empty. ground (arith, empty)

All-filled : (serials : List ℤ) → All (λ t. t ≢ []) (map format_ℤ serials)
All-filled [] = tt
All-filled (z ∷ serials) = (format_ℤ-filled z, All-filled serials)

-- In a table that keeps every row under its serial number, for a positive serial number, and on a
-- valid session manager without sessions of certificates that it knew as revoked:
-- when an administrator revokes a certificate and a gateway then downloads the list, no session of
-- that certificate is left on the gateway.
pub revoke_device_cert-fetch_and_update :
    (now reason : Text) (n : ℕ) (db db' : CertDb) (time : ℕ) (store : Store) (m : Manager)
    (id : Text) (s : Session)
    → IsKeyed db
    → revoke_device_cert now reason (hex (suc n)) db ≡ ok db'
    → IsValid m
    → NoneRevoked store m
    → get_session id (fetch_and_update time (some (downloaded db')) store m).1 ≡ some s
    → s.cert_serial ≢ format_ℤ (pos (suc n))
unfolding fetch_and_update is_revoked replace
revoke_device_cert-fetch_and_update now reason n db db' time store m id s keyed revoked valid before
      found =
    λ same.
      (let listed = revoke_device_cert-listed now reason n db db' keyed revoked in
        let free =
          (fetch_and_update-NoneRevoked time (downloaded db') store m valid
              (All-filled (generate_crl db')) before).2
            id s found in
        let clash = sym listed ∙ ap (λ t. member t (downloaded db')) (sym same) ∙ free in
        ground (arith, clash))
