-- ===== src/ControlPlane/DeviceCerts/Listed.antt =====
-- A certificate that is revoked is on the list that the gateways download.
use ztna_project.Base.{
  ℕ, suc, ◌≡◌, refl, ap, sym, ◌∙◌, inl, inr, true, false, Option, none, some, List, [], ◌∷◌, map,
  arith, if◌then◌else◌, Bool-cases, ℤ, pos, Text, text_eq, text_eq_refl, lookup, insert,
  lookup-insert, member, hex, parse_hex, parse_hex-hex, format_ℤ,
}
use ztna_project.ControlPlane.Model.{not_found, ok, past_guard, ok-injective}
use ztna_project.ControlPlane.DeviceCerts.{
  DeviceCert, CertDb, revoke_row, revoke_device_cert, list_revoked, crl_serials, cons_serial,
  generate_crl,
}

-- Every row stands under its own serial number.
abbrev pub IsKeyed : CertDb → Type 0
IsKeyed db =
    (serial : Text) (cert : DeviceCert) → lookup serial db ≡ some cert → cert.serial ≡ serial

cons_serial-member :
    (t : Text) (o : Option ℤ) (serials : List ℤ)
    → member t (map format_ℤ serials) ≡ true
    → member t (map format_ℤ (cons_serial o serials)) ≡ true
unfolding member
cons_serial-member t none serials h = h
cons_serial-member t (some z) serials h = ground (arith, h)

generate_crl-revoked :
    (key : Text) (row : DeviceCert) (db : CertDb)
    → row.revoked ≡ true
    → generate_crl ((key, row) ∷ db) ≡ cons_serial (parse_hex row.serial) (generate_crl db)
unfolding generate_crl list_revoked crl_serials
generate_crl-revoked key row db h =
    ap (λ b. crl_serials (if b then row ∷ list_revoked db else list_revoked db)) h

generate_crl-valid :
    (key : Text) (row : DeviceCert) (db : CertDb)
    → row.revoked ≡ false
    → generate_crl ((key, row) ∷ db) ≡ generate_crl db
unfolding generate_crl list_revoked
generate_crl-valid key row db h =
    ap (λ b. crl_serials (if b then row ∷ list_revoked db else list_revoked db)) h

abbrev IsOnList : ℤ → CertDb → Type 0
IsOnList z db = member (format_ℤ z) (map format_ℤ (generate_crl db)) ≡ true

IsOnList-here :
    (key : Text) (row : DeviceCert) (db : CertDb) (z : ℤ)
    → row.revoked ≡ true
    → parse_hex row.serial ≡ some z
    → IsOnList z ((key, row) ∷ db)
unfolding member
IsOnList-here key row db z gone read =
    let list =
      generate_crl-revoked key row db gone ∙ ap (λ o. cons_serial o (generate_crl db)) read in
    ap (λ l. member (format_ℤ z) (map format_ℤ l)) list ∙ ground (arith, text_eq_refl (format_ℤ z))

IsOnList-there :
    (key : Text) (row : DeviceCert) (db : CertDb) (z : ℤ)
    → IsOnList z db
    → IsOnList z ((key, row) ∷ db)
IsOnList-there key row db z h = elim (Bool-cases row.revoked) [
  | inl gone ↦
      ap (λ l. member (format_ℤ z) (map format_ℤ l)) (generate_crl-revoked key row db gone)
      ∙ cons_serial-member (format_ℤ z) (parse_hex row.serial) (generate_crl db) h
  | inr valid ↦
      ap (λ l. member (format_ℤ z) (map format_ℤ l)) (generate_crl-valid key row db valid) ∙ h
]

-- A row that a lookup finds and that is revoked is on the list.
lookup-IsOnList :
    (db : CertDb) (serial : Text) (cert : DeviceCert) (z : ℤ)
    → lookup serial db ≡ some cert
    → cert.revoked ≡ true
    → parse_hex cert.serial ≡ some z
    → IsOnList z db
unfolding lookup
lookup-IsOnList [] serial cert z found gone read = ground (arith, found)
lookup-IsOnList ((key, row) ∷ db) serial cert z found gone read =
    elim (Bool-cases (text_eq key serial)) [
      | inl same ↦
          let first : some row ≡ some cert = rw (same, lookup) at found in
          let here : row ≡ cert = ground (arith, first) in
          IsOnList-here key row db z (ap (λ c. c.revoked) here ∙ gone)
            (ap (λ c. parse_hex c.serial) here ∙ read)
      | inr differs ↦
          let later : lookup serial db ≡ some cert = rw (differs, lookup) at found in
          IsOnList-there key row db z (lookup-IsOnList db serial cert z later gone read)
    ]

pub revoke_row-ok :
    (now reason serial : Text) (db db' : CertDb) (o : Option DeviceCert)
    → revoke_row now reason serial db o ≡ ok db'
    → (cert : DeviceCert) × (o ≡ some cert)
      × (cert.revoked ≡ false)
      × (insert serial
            (record cert { revoked = true; revoked_at = now; revocation_reason = reason })
            db
          ≡ db')
revoke_row-ok now reason serial db db' none e = ground (arith, e)
revoke_row-ok now reason serial db db' (some cert) e =
    let (valid, e1) = past_guard cert.revoked not_found _ _ e in
    (cert, refl, valid, ok-injective e1)

-- In a table that keeps every row under its serial number, and for a positive serial number:
-- after a certificate is revoked, every gateway that downloads the list finds its serial number
-- there, written as the gateway writes that of a client's certificate: the hexadecimal form of the
-- table loses nothing.
pub revoke_device_cert-listed :
    (now reason : Text) (n : ℕ) (db db' : CertDb)
    → IsKeyed db
    → revoke_device_cert now reason (hex (suc n)) db ≡ ok db'
    → member (format_ℤ (pos (suc n))) (map format_ℤ (generate_crl db')) ≡ true
unfolding revoke_device_cert
revoke_device_cert-listed now reason n db db' keyed e =
    let (cert, found, valid, same) = revoke_row-ok now reason (hex (suc n)) db db' _ e in
    let row = record cert { revoked = true; revoked_at = now; revocation_reason = reason } in
    let here : lookup (hex (suc n)) db' ≡ some row =
      ap (lookup (hex (suc n))) (sym same)
      ∙ lookup-insert (hex (suc n)) (hex (suc n)) row db
      ∙ ap (λ b. if b then some row else lookup (hex (suc n)) db) (text_eq_refl (hex (suc n))) in
    lookup-IsOnList db' (hex (suc n)) row (pos (suc n)) here refl
      (ap parse_hex (keyed (hex (suc n)) cert found) ∙ parse_hex-hex n)
