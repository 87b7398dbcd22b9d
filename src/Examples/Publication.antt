-- ===== src/Examples/Publication.antt =====
-- The theorems on published resources at concrete inputs.
use ztna_project.Base.{
  ℕ, ◌+◌, ◌<◌, ◌≤◌, ◌≡◌, refl, sym, ap, ◌⊎◌, inl, inr, ◌↔◌, true, none, some, [], ◌∷◌, arith,
  Option, Text, if◌then◌else◌, ◌==◌, pos, codes, text_eq, member, lookup, insert, values, IsIn,
  keep, delete, split_host_port, join_host_port, format_ℕ,
}
use ztna_project.ControlPlane.Model.{ok}
use ztna_project.ControlPlane.Resources.{
  PublishedResource, ResourceDb, CreateResourceRequest, has_id, meets_checks, create_resource,
  create_published, admin_create, admin_delete, delete_resource, list_for_user,
}
use ztna_project.ControlPlane.Resources.Visible.{IsVisibleTo, public_view, list_for_user_iff}
use ztna_project.Gateway.Connect.{
  ResourceTarget, ResolvedResource, to_target, resolve_target, rejects, unknown_resource,
}
use ztna_project.Gateway.Catalog
use ztna_project.Gateway.Catalog.{Ask, sixty_seconds, get_resource}
use ztna_project.Gateway.Catalog.Fresh.{WasAnswered, get_resource-run}
use ztna_project.Client.{Link, request_of, split_scheme}
use ztna_project.System.Publication.{
  connected, IsPlainHost, IsRouter, IsUrlName, admin_delete-resolve_target,
}
use ztna_project.System.Access.{received, request_of-resolve_target}
use ztna_project.Examples.Connections.{lab_handler}

abbrev new_wiki : CreateResourceRequest
new_wiki = record {
  name = codes "wiki";
  display_name = codes "Wiki";
  type = codes "web";
  backend = codes "web:80";
  gateway_id = [];
  group_match = codes "dev" ∷ [];
  access_mode = codes "http-proxy";
  description = [];
}

abbrev wiki : PublishedResource
wiki = record {
  id = codes "r-1";
  name = codes "wiki";
  display_name = codes "Wiki";
  type = codes "web";
  backend = codes "web:80";
  gateway_id = [];
  group_match = codes "dev" ∷ [];
  access_mode = codes "http-proxy";
  description = [];
  created_at = codes "t0";
  updated_at = codes "t0";
}

abbrev with_wiki : ResourceDb
with_wiki = (codes "wiki", wiki) ∷ []

abbrev laptop : Link
laptop = record {
  parse_url = λ t. none;
  has_certificate = true;
  has_tls = true;
  dials = true;
  exchange = λ r. none;
  now = codes "t1";
}

-- A router that takes the name up to a question mark, and finds none before a slash.
abbrev before_query : Text → Option Text
before_query [] = some []
before_query (c ∷ name) =
    if c == b'/'
    then none
    else if c == b'?'
    then some []
    else elim (before_query name) [ none ↦ none | some rest ↦ some (c ∷ rest) ]

abbrev lab_router : Text → Option Text
lab_router name = before_query name

before_query-some : (name : Text) → IsUrlName name → before_query name ≡ some name
before_query-some [] h = refl
before_query-some (c ∷ name) (h, hs) = ground (arith, h, before_query-some name hs)

lab_router-IsRouter : IsRouter lab_router
lab_router-IsRouter name filled clean = before_query-some name clean

url_wiki : IsUrlName (codes "wiki")
url_wiki = ground arith

admin_create-wiki : admin_create (codes "t0") (codes "r-1") (some new_wiki) [] ≡ ok with_wiki
unfolding admin_create create_published create_resource meets_checks member has_id lookup insert
    text_eq
admin_create-wiki = refl

no_scheme : split_scheme (codes "wiki") ≡ none
unfolding split_scheme
no_scheme = refl

no_port : split_host_port (codes "wiki") ≡ none
unfolding split_host_port
no_port = refl

web_address : codes "web:80" ≡ join_host_port (codes "web") (format_ℕ 80)
unfolding format_ℕ
web_address = refl

plain_web : IsPlainHost (codes "web")
plain_web = ground arith

request_of-resolve_target_example :
    resolve_target
      (connected lab_router [] (codes "gw-1") with_wiki 5 6 lab_handler)
      (received (request_of laptop (codes "wiki")).resource)
    ≡ to_target
        (codes "web")
        80
        (record { type = codes "web"; host = codes "web"; port = pos 80; name = codes "wiki" })
request_of-resolve_target_example =
    request_of-resolve_target lab_router (codes "t0") (codes "r-1") new_wiki [] with_wiki
      (codes "gw-1") (codes "web") 80 5 6 lab_handler laptop lab_router-IsRouter url_wiki
      admin_create-wiki (inl refl) web_address plain_web (omega arith) (omega arith)
      (refl, no_scheme, no_port)

abbrev wiki_asked : ResourceTarget
wiki_asked = record { type = []; host = []; port = pos 0; name = codes "wiki" }

abbrev web_server : ResolvedResource
web_server = record {
  name = codes "wiki";
  backend = codes "web:80";
  type = codes "web";
  access_mode = codes "http-proxy";
}

abbrev first_ask : Ask
first_ask = record { name = codes "wiki"; now = 5; later = 6; answer = some web_server }

admin_delete-wiki : admin_delete (codes "wiki") with_wiki ≡ ok []
unfolding admin_delete delete_resource lookup delete keep text_eq
admin_delete-wiki = refl

asked_long_ago :
    (b : Ask) (found : ResolvedResource)
    → IsIn b (first_ask ∷ [])
    → b.name ≡ codes "wiki"
    → b.answer ≡ some found
    → b.later + sixty_seconds ≤ 60_000_000_006
asked_long_ago b found (inl same) named answered =
    rw (sym (ap (λ (a : Ask). a.later) same)) (omega arith)
asked_long_ago b found (inr nowhere) named answered = elim nowhere [ ]

admin_delete-resolve_target_example :
    resolve_target
      (connected lab_router
        (first_ask ∷ [])
        (codes "gw-1")
        []
        60_000_000_006
        60_000_000_007
        lab_handler)
      wiki_asked
    ≡ rejects unknown_resource
admin_delete-resolve_target_example =
    admin_delete-resolve_target lab_router (codes "wiki") with_wiki [] (first_ask ∷ [])
      (codes "gw-1") 60_000_000_006 60_000_000_007 lab_handler wiki_asked lab_router-IsRouter
      url_wiki admin_delete-wiki asked_long_ago refl

list_for_user_example : IsIn (public_view wiki) (list_for_user (codes "dev" ∷ []) with_wiki) ↔ (
    (res : PublishedResource) × IsIn res (values with_wiki)
    × IsVisibleTo (codes "dev" ∷ []) res
    × (public_view res ≡ public_view wiki))
list_for_user_example = list_for_user_iff (codes "dev" ∷ []) with_wiki (public_view wiki)

abbrev second_ask : Ask
second_ask = record { name = codes "wiki"; now = 9; later = 9; answer = none }

second_answer : (get_resource second_ask (Catalog.run true (first_ask ∷ []))).1 ≡ some web_server
unfolding get_resource Catalog.run Catalog.new_client lookup insert text_eq
second_answer = refl

get_resource-run_example :
    (none ≡ some web_server)
    ⊎ ((at : ℕ) × WasAnswered (first_ask ∷ []) (codes "wiki") web_server at
        × (9 < at + sixty_seconds))
get_resource-run_example =
    get_resource-run true (first_ask ∷ []) second_ask web_server second_answer
