-- ===== src/ControlPlane/Gateways/Access.antt =====
-- Which gateways the middleware lets through.
use ztna_project.Base.{
  ◌≡◌, ◌≢◌, refl, true, sym, ap, ◌∙◌, ◌↔◌, ◌⊎◌, inl, inr, false, not, ◌||◌, Option, none, some,
  arith, if◌then◌else◌, Bool-cases, Text, codes, text_eq, text_eq_iff, text_eq_refl, is_empty,
  lookup,
}
use ztna_project.ControlPlane.Model.{unauthorized, ok, err, past_guard, ok-injective}
use ztna_project.ControlPlane.Gateways.{
  PepConfig, PepRequest, by_certificate, by_token, admit_pep, is_listed, require_pep,
}

-- The proof of identity that a request carries, in the mode that the configuration chose.
abbrev pub Proves : PepConfig → PepRequest → Text → Type 0
Proves cfg r id =
    ((cfg.auth_mode ≡ codes "mtls") × (r.peer_common_name ≡ some id))
    ⊎ ((cfg.auth_mode ≢ codes "mtls")
        × (r.pep_id ≡ id)
        × (is_empty id ≡ false)
        × (lookup id cfg.tokens ≡ some r.pep_token)
        × (is_empty r.pep_token ≡ false))

admit_pep-ok :
    (cfg : PepConfig) (id j : Text)
    → admit_pep cfg id ≡ ok j
    → (id ≡ j) × (is_listed j cfg.revoked_pep_ids ≡ false)
admit_pep-ok cfg id j e =
    let (free, same) = past_guard (is_listed id cfg.revoked_pep_ids) _ _ _ e in
    (ok-injective same, sym (ap (λ i. is_listed i cfg.revoked_pep_ids) (ok-injective same)) ∙ free)

by_certificate-ok :
    (cfg : PepConfig) (o : Option Text) (id : Text)
    → by_certificate cfg o ≡ ok id
    → (o ≡ some id) × (is_listed id cfg.revoked_pep_ids ≡ false)
by_certificate-ok cfg none id e = ground (arith, e)
by_certificate-ok cfg (some cn) id e =
    let (same, free) = admit_pep-ok cfg cn id e in (ap some same, free)

by_token-ok :
    (cfg : PepConfig) (r : PepRequest) (o : Option Text) (id : Text)
    → by_token cfg r o ≡ ok id
    → (r.pep_id ≡ id) × (o ≡ some r.pep_token) × (is_listed id cfg.revoked_pep_ids ≡ false)
by_token-ok cfg r none id e = ground (arith, e)
by_token-ok cfg r (some expected) id e =
    let (match, e1) =
      past_guard (is_empty expected || not (text_eq expected r.pep_token)) _ _ _ e in
    let (same, free) = admit_pep-ok cfg r.pep_id id e1 in
    (same, ground (arith, match, text_eq_iff expected r.pep_token), free)

require_pep-Proves :
    (cfg : PepConfig) (r : PepRequest) (id : Text)
    → require_pep cfg r ≡ ok id
    → Proves cfg r id × (is_listed id cfg.revoked_pep_ids ≡ false)
unfolding require_pep
require_pep-Proves cfg r id e = elim (Bool-cases (text_eq cfg.auth_mode (codes "mtls"))) [
  | inl mtls ↦
      let e1 : by_certificate cfg r.peer_common_name ≡ ok id = rw (mtls, require_pep) at e in
      let (found, free) = by_certificate-ok cfg r.peer_common_name id e1 in
      (inl (ground (arith, mtls, text_eq_iff cfg.auth_mode (codes "mtls")), found), free)
  | inr tokens ↦
      let e1 : (if is_empty r.pep_id || is_empty r.pep_token
            then err unauthorized
            else by_token cfg r (lookup r.pep_id cfg.tokens))
          ≡ ok id =
        rw (tokens, require_pep) at e in
      let (named, e2) = past_guard (is_empty r.pep_id || is_empty r.pep_token) _ _ _ e1 in
      let (same, found, free) = by_token-ok cfg r (lookup r.pep_id cfg.tokens) id e2 in
      (
        inr (
          (λ (mode : cfg.auth_mode ≡ codes "mtls").
              ground (arith, tokens, mode, text_eq_iff cfg.auth_mode (codes "mtls"))),
          same,
          ap is_empty (sym same) ∙ ground (arith, named),
          ap (λ j. lookup j cfg.tokens) (sym same) ∙ found,
          ground (arith, named),
        ),
        free,
      )
]

Proves-mtls :
    (cfg : PepConfig) (r : PepRequest) (id : Text)
    → cfg.auth_mode ≡ codes "mtls"
    → r.peer_common_name ≡ some id
    → is_listed id cfg.revoked_pep_ids ≡ false
    → require_pep cfg r ≡ ok id
unfolding require_pep
Proves-mtls cfg r id mode named free =
    let mtls : text_eq cfg.auth_mode (codes "mtls") ≡ true =
      (text_eq_iff cfg.auth_mode (codes "mtls")).1 mode in
    rw (mtls, named, free, require_pep) refl

Proves-token :
    (cfg : PepConfig) (r : PepRequest)
    → cfg.auth_mode ≢ codes "mtls"
    → is_empty r.pep_id ≡ false
    → lookup r.pep_id cfg.tokens ≡ some r.pep_token
    → is_empty r.pep_token ≡ false
    → is_listed r.pep_id cfg.revoked_pep_ids ≡ false
    → require_pep cfg r ≡ ok r.pep_id
unfolding require_pep
Proves-token cfg r mode named found filled free =
    let tokens : text_eq cfg.auth_mode (codes "mtls") ≡ false =
      ground (arith, mode, text_eq_iff cfg.auth_mode (codes "mtls")) in
    rw (tokens, named, found, filled, text_eq_refl r.pep_token, free, require_pep) refl

Proves-require_pep :
    (cfg : PepConfig) (r : PepRequest) (id : Text)
    → Proves cfg r id
    → is_listed id cfg.revoked_pep_ids ≡ false
    → require_pep cfg r ≡ ok id
Proves-require_pep cfg r id (inl (mode, named)) free = Proves-mtls cfg r id mode named free
Proves-require_pep cfg r id (inr (mode, same, named, found, filled)) free =
    Proves-token cfg r mode (ap is_empty same ∙ named) (ap (λ j. lookup j cfg.tokens) same ∙ found)
      filled (ap (λ j. is_listed j cfg.revoked_pep_ids) same ∙ free)
    ∙ ap ok same

-- A gateway passes the middleware exactly in the mode "mtls" with a certificate in its name, or in any
-- other mode with the token that is configured for it, never an empty one; and never when it is on
-- the list of the revoked.
pub require_pep_iff :
    (cfg : PepConfig) (r : PepRequest) (id : Text)
    → (require_pep cfg r ≡ ok id) ↔ (Proves cfg r id × (is_listed id cfg.revoked_pep_ids ≡ false))
require_pep_iff cfg r id = (
  require_pep-Proves cfg r id,
  (λ (p : Proves cfg r id × (is_listed id cfg.revoked_pep_ids ≡ false)).
      Proves-require_pep cfg r id p.0 p.1),
)
