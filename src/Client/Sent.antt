-- ===== src/Client/Sent.antt =====
-- What the client asks a gateway for, and when it hands on a connection.
use ztna_project.Base.{
  ◌≡◌, refl, sym, ap, ◌∙◌, inl, inr, Bool, true, false, not, Option, none, some, [], arith,
  if◌then◌else◌, Bool-cases, pos, Text, codes, text_eq, text_eq_iff, is_empty, lookup,
  split_host_port,
}
use ztna_project.Client.{
  ResourceRef, is_valid, ClientError, invalid_config, Outcome, done, failed, split_scheme, Catalog,
  named_of, address_or_name, uri_or_other, resolve, format_resource, parse_resource,
  ConnectResponse, Link, request_of, after_exchange, connect, after_resolve, run, tls_error,
  gateway_unreachable, no_certificate,
}

past_failure :
    {A : Type 0} (failing : Bool) (e : ClientError) (rest : Outcome A) (value : A)
    → (if failing then failed e else rest) ≡ done value
    → (failing ≡ false) × (rest ≡ done value)
past_failure true e rest value h = ground (arith, h)
past_failure false e rest value h = (refl, h)

after_exchange-done :
    (o : Option ConnectResponse) (r : ConnectResponse)
    → after_exchange o ≡ done r
    → (o ≡ some r) × (r.decision ≡ codes "allow")
after_exchange-done none r h = ground (arith, h)
after_exchange-done (some s) r h = elim (Bool-cases (text_eq s.decision (codes "allow"))) [
  | inl allowed ↦
      let same : done s ≡ done r = rw (allowed, after_exchange) at h in
      let eq : s ≡ r = ground (arith, same) in
      (
        ap some eq,
        sym (ap (λ (x : ConnectResponse). x.decision) eq)
            ∙ (text_eq_iff s.decision (codes "allow")).0 allowed,
      )
  | inr denied ↦ ground (arith, h, denied)
]

-- A connection is handed on only when the gateway answered the request with "allow".
connect-done :
    (l : Link) (resource : Text) (r : ConnectResponse)
    → connect l resource ≡ done r
    → (l.has_tls ≡ true)
      × (l.exchange (request_of l resource) ≡ some r)
      × (r.decision ≡ codes "allow")
unfolding connect
connect-done l resource r h =
    let (tls, h1) = past_failure (not l.has_tls) tls_error _ r h in
    let (_, h2) = past_failure (not l.dials) gateway_unreachable _ r h1 in
    let (answered, allowed) = after_exchange-done (l.exchange (request_of l resource)) r h2 in
    (ground (arith, tls), answered, allowed)

after_resolve-done :
    (l : Link) (o : Outcome ResourceRef) (r : ConnectResponse)
    → after_resolve l o ≡ done r
    → (ref : ResourceRef) × (o ≡ done ref)
      × (is_valid ref ≡ true)
      × (l.has_certificate ≡ true)
      × (connect l (format_resource ref) ≡ done r)
after_resolve-done l (failed e) r h = ground (arith, h)
after_resolve-done l (done ref) r h =
    let (valid, h1) = past_failure (not (is_valid ref)) invalid_config _ r h in
    let (cert, h2) = past_failure (not l.has_certificate) no_certificate _ r h1 in
    (ref, refl, ground (arith, valid), ground (arith, cert), h2)

-- The connect service succeeds only for a resource that it resolved and that is valid, with a
-- certificate and a TLS configuration, and only when the gateway answered its request for this
-- resource with "allow".
run-done :
    (l : Link) (name : Text) (catalog : Option Catalog) (r : ConnectResponse)
    → run l name catalog ≡ done r
    → (ref : ResourceRef) × (resolve name catalog ≡ done ref)
      × (is_valid ref ≡ true)
      × (l.has_certificate ≡ true)
      × (l.has_tls ≡ true)
      × (l.exchange (request_of l (format_resource ref)) ≡ some r)
      × (r.decision ≡ codes "allow")
unfolding run
run-done l name catalog r h =
    let (ref, found, valid, cert, connected) = after_resolve-done l (resolve name catalog) r h in
    let (tls, answered, allowed) = connect-done l (format_resource ref) r connected in
    (ref, found, valid, cert, tls, answered, allowed)

-- A name that is neither a URI nor an address.
abbrev pub IsPlainName : Text → Type 0
IsPlainName name =
    (is_empty name ≡ false) × (split_scheme name ≡ none) × (split_host_port name ≡ none)

-- The gateway is asked for the name alone: no type, no host, no port.
pub parse_resource-name :
    (l : Link) (name : Text)
    → IsPlainName name
    → (request_of l name).resource ≡ record { type = []; host = []; port = pos 0; name = name }
unfolding request_of parse_resource
parse_resource-name l name (filled, no_scheme, no_port) = rw (no_scheme, no_port) refl

-- A plain name of the client's file that has a valid entry without a name of its own is asked for
-- by this name alone: the address that the file gives it stays with the client.
run-named :
    (l : Link) (name : Text) (catalog : Catalog) (entry : ResourceRef)
    → IsPlainName name
    → lookup name catalog ≡ some entry
    → is_valid entry ≡ true
    → is_empty entry.name ≡ true
    → l.has_certificate ≡ true
    → run l name (some catalog) ≡ connect l name
unfolding run resolve format_resource
run-named l name catalog entry (filled, no_scheme, no_port) found valid unnamed cert =
    let resolved : resolve name (some catalog) ≡ done (record entry { name = name }) =
      rw (filled, resolve)
        (ap (uri_or_other name (some catalog)) no_scheme
          ∙ ap (address_or_name name (some catalog)) no_port
          ∙ ap (named_of name) found
          ∙ ground (arith, valid, unnamed)) in
    let same_valid : is_valid (record entry { name = name }) ≡ true = unfold is_valid in valid in
    ap (after_resolve l) resolved ∙ rw (same_valid, cert, filled) refl
