-- ===== src/ControlPlane/DeviceCerts/Keyed.antt =====
-- The table of the certificates keeps every row under its serial number.
use mathlib.Core.Path.{subst}
use ztna_project.Base.{
  ◌≡◌, refl, ap, sym, ◌∙◌, inl, inr, false, some, [], arith, Bool-cases, Option-cases, Text,
  text_eq, text_eq_iff, lookup, insert, lookup-insert,
}
use ztna_project.ControlPlane.Model.{internal, Result, ok, err, ok-injective}
use ztna_project.ControlPlane.DeviceCerts.{
  DeviceCert, CertDb, revoke_device_cert, store_device_cert,
}
use ztna_project.ControlPlane.DeviceCerts.Listed.{IsKeyed, revoke_row-ok}

insert-IsKeyed :
    (serial : Text) (row : DeviceCert) (db : CertDb)
    → row.serial ≡ serial
    → IsKeyed db
    → IsKeyed (insert serial row db)
insert-IsKeyed serial row db same keyed = λ key cert found.
    (let written = sym (lookup-insert serial key row db) ∙ found in
      elim (Bool-cases (text_eq serial key)) [
        | inl hit ↦
            let here : some row ≡ some cert = rw hit at written in
            let row_is : row ≡ cert = ground (arith, here) in
            sym (ap (λ c. c.serial) row_is) ∙ same ∙ (text_eq_iff serial key).0 hit
        | inr miss ↦
            let there : lookup key db ≡ some cert = rw miss at written in keyed key cert there
      ])

store-IsKeyed :
    (cert : DeviceCert) (db db' : CertDb)
    → IsKeyed db
    → store_device_cert cert db ≡ ok db'
    → IsKeyed db'
unfolding store_device_cert
store-IsKeyed cert db db' keyed e = elim (Option-cases (lookup cert.serial db)) [
  | inl missing ↦
      let same : ok (
            insert cert.serial
              (record cert { revoked = false; revoked_at = []; revocation_reason = [] }) db)
          ≡ ok db' =
        rw (missing, store_device_cert) at e in
      subst IsKeyed (ok-injective same) (insert-IsKeyed cert.serial _ db refl keyed)
  | inr (old, found) ↦
      let clash : err internal ≡ ok db' = rw (found, store_device_cert) at e in
      λ key row at. ground (arith, clash)
]

revoke-IsKeyed :
    (now reason serial : Text) (db db' : CertDb)
    → IsKeyed db
    → revoke_device_cert now reason serial db ≡ ok db'
    → IsKeyed db'
unfolding revoke_device_cert
revoke-IsKeyed now reason serial db db' keyed e =
    let (cert, found, _, same) = revoke_row-ok now reason serial db db' _ e in
    subst IsKeyed same (insert-IsKeyed serial _ db (keyed serial cert found) keyed)

-- A call that changes the table.
pub data Call : Type 0 where
  stores : DeviceCert → Call
  revokes : (now reason serial : Text) → Call

unfoldable pub call : Call → CertDb → Result CertDb
call (stores cert) db = store_device_cert cert db
call (revokes now reason serial) db = revoke_device_cert now reason serial db

-- The rows stay under their serial numbers, whatever call succeeds.
pub call-IsKeyed : (c : Call) (db db' : CertDb) → IsKeyed db → call c db ≡ ok db' → IsKeyed db'
unfolding call
call-IsKeyed (stores cert) db db' keyed e = store-IsKeyed cert db db' keyed e
call-IsKeyed (revokes now reason serial) db db' keyed e =
    revoke-IsKeyed now reason serial db db' keyed e
