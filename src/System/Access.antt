-- ===== src/System/Access.antt =====
-- From an administrator to a client: a published resource, the request that a client sends for its
-- name, and the target that a gateway connects it to. The client's message and the gateway's have the
-- same JSON names for the resource.
use ztna_project.Base.{ℕ, ◌≤◌, ◌≡◌, ap, ◌∙◌, Option, some, [], pos, Text, format_ℕ, join_host_port}
use ztna_project.ControlPlane.Model.{ok}
use ztna_project.ControlPlane.Resources.{ResourceDb, CreateResourceRequest, admin_create}
use ztna_project.ControlPlane.Resources.Served.{MayServe}
use ztna_project.Gateway.Connect.{ResourceTarget, Handler, to_target, resolve_target}
use ztna_project.Client.{ResourceRef, Link, request_of}
use ztna_project.Client.Sent.{IsPlainName, parse_resource-name}
use ztna_project.System.Publication.{
  connected, IsPlainHost, IsRouter, IsUrlName, admin_create-resolve_target,
}

-- The resource of a request as the gateway decodes it.
abbrev pub received : ResourceRef → ResourceTarget
received r = record { type = r.type; host = r.host; port = r.port; name = r.name }

-- When an administrator publishes a resource with a backend of a plain host and a port from 1 to
-- 65535, under a name that is neither a URI nor an address and that a URL takes as it is, then a
-- gateway that may serve it resolves the request of a client for this name, at its first question to
-- the catalogue, to exactly this backend; and to the published type, host and port under this name,
-- for which it asks for the decision.
pub request_of-resolve_target :
    (route : Text → Option Text) (stamp fresh : Text) (req : CreateResourceRequest)
    (db db' : ResourceDb) (pep_id host : Text) (port now later : ℕ) (h : Handler) (l : Link)
    → IsRouter route
    → IsUrlName req.name
    → admin_create stamp fresh (some req) db ≡ ok db'
    → MayServe pep_id req.gateway_id
    → req.backend ≡ join_host_port host (format_ℕ port)
    → IsPlainHost host
    → 1 ≤ port
    → port ≤ 65535
    → IsPlainName req.name
    → resolve_target
        (connected route [] pep_id db' now later h)
        (received (request_of l req.name).resource)
      ≡ to_target host port
          (record { type = req.type; host = host; port = pos port; name = req.name })
request_of-resolve_target route stamp fresh req db db' pep_id host port now later h l routes clean
      made may backend plain low high named =
    let sent = parse_resource-name l req.name named in
    let asked = received (request_of l req.name).resource in
    admin_create-resolve_target route stamp fresh req db db' pep_id host port now later h asked
      routes clean made may backend plain low high (ap (λ (r : ResourceRef). r.name) sent)
    ∙ ap
        (λ (r : ResourceRef).
          to_target host port
            (record { type = req.type; host = host; port = pos port; name = r.name }))
        sent
