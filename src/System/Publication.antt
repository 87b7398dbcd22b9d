-- ===== src/System/Publication.antt =====
-- The way of a published resource: the catalogue of the control plane, the gateway's client for it,
-- and the target of a connection. JSON carries the name, type, backend and access mode, which
-- have the same names on both sides, and a status other than 200 is an error.
use ztna_project.Base.{
  ℕ, ◌+◌, ◌≤◌, Bool, ◌&&◌, ◌||◌, leb, ◌==◌, All, ◌≡◌, refl, ap, ◌∙◌, true, false, Option, none,
  some, List, [], arith, pos, Text, is_empty, Lacks, lookup, format_ℕ, Lacks-format_ℕ,
  scan_int-format_ℕ, split_host_port, join_host_port, split_host_port-join_host_port, IsIn,
}
use ztna_project.ControlPlane.Model.{Result, ok, err, past_guard}
use ztna_project.ControlPlane.Resources.{
  ResourceDb, CreateResourceRequest, admin_create, admin_delete, PepResourceResponse, resolve,
}
use ztna_project.ControlPlane.Resources.Served.{
  MayServe, admin_create-ok, admin_create-resolve, admin_delete-resolve,
}
use ztna_project.Gateway.Connect.{
  ResolvedResource, ResourceTarget, Handler, backend_port, by_port, resolved_target, by_address,
  by_name, bad_backend, bad_backend_port, rejects, to_target, unknown_resource, resolve_target,
}
use ztna_project.Gateway.Connect
use ztna_project.Gateway.Catalog.{
  Client, new_client, after_call, sixty_seconds, Ask, get_resource, run,
}
use ztna_project.Gateway.Catalog.Fresh.{get_resource-gone}

-- What the client of the gateway makes of the control plane's answer.
abbrev pub decoded : Result PepResourceResponse → Option ResolvedResource
decoded (err e) = none
decoded (ok response) = some (record {
  name = response.name;
  backend = response.backend;
  type = response.type;
  access_mode = response.access_mode;
})

-- The gateway writes the name as it is into the path of its request, and the control plane's router
-- takes a name out of it: net/url and chi stand between, which `route` is; `none` where they build no
-- request or find no route. What they document is that letters, digits, `-`, `.`, `_` and `~`, which a
-- URL never escapes, come through.
abbrev pub is_unreserved : ℕ → Bool
is_unreserved c =
    (leb b'a' c && leb c b'z')
    || ((leb b'A' c && leb c b'Z')
        || ((leb b'0' c && leb c b'9') || (c == b'-' || (c == b'.' || (c == b'_' || c == b'~')))))

abbrev pub IsUrlName : Text → Type 0
IsUrlName name = All (λ c. is_unreserved c ≡ true) name

abbrev pub IsRouter : (Text → Option Text) → Type 0
IsRouter route = (name : Text) → is_empty name ≡ false → IsUrlName name → route name ≡ some name

abbrev pub answered : (pep_id : Text) → ResourceDb → Option Text → Option ResolvedResource
answered pep_id db none = none
answered pep_id db (some name) = decoded (resolve pep_id name db)

-- A call for a name, on a control plane with this catalogue.
abbrev pub ask :
    (route : Text → Option Text) (pep_id : Text) → ResourceDb → (name : Text) (now later : ℕ) → Ask
ask route pep_id db name now later = record {
  name = name;
  now = now;
  later = later;
  answer = answered pep_id db (route name);
}

-- The handler's client for published resources, with the history of its calls.
abbrev pub by_client :
    (route : Text → Option Text) (asks : List Ask) (pep_id : Text)
    → ResourceDb
    → (now later : ℕ) → Text
    → Option ResolvedResource
by_client route asks pep_id db now later name =
    (get_resource (ask route pep_id db name now later) (run true asks)).1

abbrev pub connected :
    (route : Text → Option Text) (asks : List Ask) (pep_id : Text)
    → ResourceDb
    → (now later : ℕ) → Handler
    → Handler
connected route asks pep_id db now later h = record h {
  resources = some (by_client route asks pep_id db now later);
}

backend_port-format_ℕ : (n : ℕ) → 1 ≤ n → n ≤ 65535 → backend_port (format_ℕ n) ≡ some n
unfolding backend_port
backend_port-format_ℕ n low high = rw (scan_int-format_ℕ n (omega arith)) (ground arith)

-- A host without colons and brackets, as in a name or an IPv4 address.
abbrev pub IsPlainHost : Text → Type 0
IsPlainHost host = Lacks b':' host × Lacks b'[' host × Lacks b']' host

after_call-answer : (a : Ask) (o : Option ResolvedResource) (c : Client) → (after_call a o c).1 ≡ o
after_call-answer a none c = refl
after_call-answer a (some r) c = refl

first_answer :
    (route : Text → Option Text) (pep_id : Text) (db : ResourceDb) (now later : ℕ) (name : Text)
    → by_client route [] pep_id db now later name ≡ answered pep_id db (route name)
unfolding get_resource run lookup new_client
first_answer route pep_id db now later name =
    after_call-answer (ask route pep_id db name now later) (answered pep_id db (route name))
      (new_client true)

resolve_target-named :
    (h : Handler) (r : ResourceTarget) (find : Text → Option ResolvedResource)
    → is_empty r.name ≡ false
    → h.resources ≡ some find
    → resolve_target h r ≡ by_name r (find r.name)
unfolding resolve_target
resolve_target-named h r find named client =
    rw (named, resolve_target) (ap (Connect.by_client h.routes r) client)

-- When an administrator publishes a resource with a backend of a plain host and a port from 1 to
-- 65535, and it names no gateway or the one that asks, then a first connection on that gateway
-- that asks for it by name, if the name is one that a URL takes as it is, has exactly this host and
-- port as its target, and takes the published type.
pub admin_create-resolve_target :
    (route : Text → Option Text) (stamp fresh : Text) (req : CreateResourceRequest)
    (db db' : ResourceDb) (pep_id host : Text) (port now later : ℕ) (h : Handler)
    (r : ResourceTarget)
    → IsRouter route
    → IsUrlName req.name
    → admin_create stamp fresh (some req) db ≡ ok db'
    → MayServe pep_id req.gateway_id
    → req.backend ≡ join_host_port host (format_ℕ port)
    → IsPlainHost host
    → 1 ≤ port
    → port ≤ 65535
    → r.name ≡ req.name
    → resolve_target (connected route [] pep_id db' now later h) r
      ≡ to_target host port (record r { host = host; port = pos port; type = req.type })
admin_create-resolve_target route stamp fresh req db db' pep_id host port now later h r routes clean
      made may backend plain low high same =
    let (filled, _, _) = admin_create-ok stamp fresh req db db' made in
    let (_, told, _) = admin_create-resolve stamp fresh req db db' pep_id made in
    let answer = told may in
    let split =
      split_host_port-join_host_port host (format_ℕ port) plain.0 plain.1 plain.2
        (Lacks-format_ℕ b':' port refl) (Lacks-format_ℕ b'[' port refl)
        (Lacks-format_ℕ b']' port refl) in
    let number = backend_port-format_ℕ port low high in
    let type_and = resolved_target r (record {
      name = req.name;
      backend = req.backend;
      type = req.type;
      access_mode = req.access_mode;
    }) in
    resolve_target-named (connected route [] pep_id db' now later h) r _ (ap is_empty same ∙ filled)
      refl
    ∙ ap (by_name r) (first_answer route pep_id db' now later r.name)
    ∙ ap (λ n. by_name r (answered pep_id db' (route n))) same
    ∙ ap (λ o. by_name r (answered pep_id db' o)) (routes req.name filled clean)
    ∙ ap (λ x. by_name r (decoded x)) answer
    ∙ ap (λ b. by_address bad_backend bad_backend_port type_and (split_host_port b)) backend
    ∙ ap (by_address bad_backend bad_backend_port type_and) split
    ∙ ap (by_port bad_backend_port type_and host) number

-- When an administrator deletes a resource whose name is one that a URL takes as it is, a connection
-- that asks for it by name is refused on every gateway whose client for the catalogue had its last successful answer for the name sixty
-- seconds ago or earlier.
pub admin_delete-resolve_target :
    (route : Text → Option Text) (name : Text) (db db' : ResourceDb) (asks : List Ask)
    (pep_id : Text) (now later : ℕ) (h : Handler) (r : ResourceTarget)
    → IsRouter route
    → IsUrlName name
    → admin_delete name db ≡ ok db'
    → ((b : Ask) (found : ResolvedResource)
        → IsIn b asks
        → b.name ≡ name
        → b.answer ≡ some found
        → b.later + sixty_seconds ≤ now)
    → r.name ≡ name
    → resolve_target (connected route asks pep_id db' now later h) r ≡ rejects unknown_resource
unfolding admin_delete
admin_delete-resolve_target route name db db' asks pep_id now later h r routes clean gone old same =
    let (filled, _) = past_guard (is_empty name) _ _ _ gone in
    let (unseen, _) = admin_delete-resolve name db db' pep_id gone in
    resolve_target-named (connected route asks pep_id db' now later h) r _
      (ap is_empty same ∙ filled) refl
    ∙ ap (λ n. by_name r (by_client route asks pep_id db' now later n)) same
    ∙ ap (by_name r) (
        get_resource-gone true asks (ask route pep_id db' name now later)
          (ap (answered pep_id db') (routes name filled clean) ∙ ap decoded unseen) old)
