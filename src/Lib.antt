-- ===== src/Lib.antt =====
-- A model of the access control of this repository, a zero-trust network access system of three
-- programs: the control plane (control-plane/), which keeps the policies, the registered gateways and
-- the certificates and decides on requests; the gateway (gateway/), which accepts mTLS connections of
-- clients, asks the control plane for a decision and relays the traffic; and the client (client/),
-- which logs a user in and asks a gateway for a resource.
--
-- How the parts interact. A client (Client) gets tokens from the identity provider (Client.Login), and
-- with them a certificate of the control plane, which authenticates users by their tokens
-- (ControlPlane.Users, ControlPlane.Tokens), limits their requests (ControlPlane.RateLimit) and issues
-- certificates for a bounded time (ControlPlane.DeviceIssue). Administrators publish resources
-- (ControlPlane.Resources) and policies (ControlPlane.PolicyAdmin). The client resolves the name of a
-- resource and connects to a gateway, which takes up connections (Gateway.Listener) with a certificate
-- that is not revoked. The gateway (Gateway.Connect) checks its serial number against the downloaded revocation list
-- (Gateway.Revocation), takes the subject from it (Gateway.Identity), reads a framed request
-- (Gateway.Framing), resolves the resource by its published name, with its own cache of the catalogue
-- (Gateway.Catalog), or by the configured routes (Gateway.Config), asks the cache (Gateway.Cache) or the control plane for a decision, registers a
-- session (Gateway.Session) and relays to a checked target (Gateway.Proxy). The control plane
-- authenticates and checks the gateway (ControlPlane.Gateways), validates the request, reads the active
-- policy (ControlPlane.PolicyStore), evaluates it (ControlPlane.Policy) and records the decision
-- (ControlPlane.Authorize). It issues the certificates (ControlPlane.Credentials) and revokes them
-- (ControlPlane.DeviceCerts), and keeps records of the sessions (ControlPlane.Records). The modules of System
-- join the programs: Revocation follows a revocation, Publication a published resource, Access a
-- resource from the administrator to the client, and Identity a user through the certificate.
--
-- Which file models which code:
--   Gateway/Session        gateway/internal/infra/session/manager.go: Manager and its methods
--   Gateway/Cache          gateway/internal/infra/cache/cache.go: New, Get, Put, Clear
--   Gateway/Revocation     gateway/internal/infra/revocation/crl.go: IsRevoked, Replace,
--                          fetchAndUpdate; the callback in gateway/internal/bootstrap/app.go
--   Gateway/Config         gateway/internal/config/config.go: Load, applyDefaults, Validate,
--                          ResolveRoute
--   Gateway/Identity       gateway/internal/infra/mtls/identity.go: ExtractSubjectFromCert
--   Gateway/Connect        gateway/internal/usecase/connect/handler.go: HandleConnection as
--                          open_session and end_session, resolveDecision
--   Gateway/Framing        gateway/internal/usecase/connect/connect.go: WriteMessage, ReadMessage
--   Gateway/Proxy          gateway/internal/infra/proxy/tcp.go: validateTarget, the end reason
--   Gateway/Catalog        gateway/internal/infra/resource/client.go: NewClient, GetResource
--   Gateway/Listener       gateway/internal/infra/mtls/listener.go: Listen
--   Gateway/Lifecycle      gateway/internal/usecase/lifecycle/lifecycle.go
--   ControlPlane/Model     control-plane/internal/domain/model and domain/errors
--   ControlPlane/Policy    control-plane/internal/domain/policy/evaluation.go: Evaluate and its tests
--   ControlPlane/PolicyStore  control-plane/internal/store/sqlite/repo.go (policies) and
--                          control-plane/internal/service/policy/service.go
--   ControlPlane/Gateways  control-plane/internal/store/sqlite/gateways.go,
--                          control-plane/internal/service/gateway/service.go, and in
--                          control-plane/internal/api the middleware pep_auth.go and the handler
--                          pep_register.go; ControlPlane/Gateways/Beat the handler
--                          pep_heartbeat.go
--   ControlPlane/Requests  control-plane/internal/api/handlers: the messages and checks of
--                          pep_authorize.go, audit_helpers.go
--   ControlPlane/Authorize the handler of pep_authorize.go, control-plane/internal/service/decision/service.go,
--                          control-plane/internal/service/audit/service.go
--   ControlPlane/Credentials  control-plane/internal/service/credentials/service.go
--   ControlPlane/DeviceCerts  control-plane/internal/store/sqlite/device_certs.go and GenerateCRL of
--                          control-plane/internal/service/credentials/device_cert.go
--   ControlPlane/Records   control-plane/internal/store/sqlite/sessions.go,
--                          control-plane/internal/service/session/session.go and the handlers of
--                          pep_sessions.go
--   ControlPlane/Resources control-plane/internal/service/resource/service.go,
--                          control-plane/internal/store/sqlite/resources.go and the handlers of
--                          resources.go and pep_resources.go
--   ControlPlane/PolicyAdmin  the handlers CreateVersion and ActivateVersion of admin_policies.go
--   ControlPlane/Config    control-plane/internal/config/config.go: applyDefaults, Validate, Load and
--                          the durations
--   ControlPlane/Tokens    control-plane/internal/security/oidc/validator.go
--   ControlPlane/Users     control-plane/internal/api/middleware/user_auth.go and admin.go
--   ControlPlane/RateLimit control-plane/internal/api/middleware/ratelimit.go
--   ControlPlane/DeviceIssue  IssueDeviceCert of
--                          control-plane/internal/service/credentials/device_cert.go, SignClientCSR
--                          and checkKeyType of control-plane/internal/crypto/deviceca/deviceca.go, and
--                          the handlers of device_cert.go and admin_device_certs.go
--   Client                 in client/internal: core/domain/model.go, infra/storage/resource_catalog.go,
--                          ParseResource of infra/tunnel/protocol.go, Connect of infra/tunnel/tunnel.go
--                          and usecase/connect/service.go
--   Client/Login           client/internal/infra/oidc/oidc.go and client/internal/usecase/login/service.go
--   Client/Config          client/internal/config/config.go
-- Base holds texts, numbers, maps and lists; Examples runs the theorems on concrete inputs. A function
-- keeps its name, in snake case, and its record of receiver fields is its last argument and part of its
-- result.
--
-- Conventions. A Go string is the list of its bytes; case folding and white space are those of ASCII.
-- An int is the data type of integers without a width: nothing that is modelled comes near 2^63, and
-- where the code itself checks a range (Atoi, Sscanf) the check is written out. A map or a table is an
-- association list with at most one entry for a key. Clocks, random identifiers and the choice that the
-- iteration of a Go map makes are arguments. Errors are constructors of a data type; a denial of the
-- gateway is one constructor for each message. A mutex makes each method of the session manager one
-- step; a collector round is two steps, as in the code, and histories are lists of steps.
--
-- Bounds and fuel. Loops over lists are structural. Printing a number takes fuel: n + 1 for the decimal
-- digits of n, n for the bytes of n, more than there are digits; the round trips in Base are proved for
-- every number. The polling loop of the device flow (Client.Login) takes fuel for one round in each
-- nanosecond that the code is valid, and two more: each round waits for a nanosecond at least. Times
-- are nanoseconds, and durations do not overflow but where a client gives a number of seconds
-- (seconds_of in ControlPlane.DeviceIssue.Handlers), which wraps around at 64 bits.
--
-- Not modelled: HTTP routing and JSON, the SQL engine (its statements are read as operations on the
-- tables, and a database that fails is left out but for the insertion of an audit row and for rows that
-- are not found), TLS, the encodings and signatures of X.509, SSH and JWT, the fetching of keys and
-- revocation lists, the token bucket of the rate limiter's library, telemetry, logging, tickers,
-- goroutines that copy bytes; of the client its commands, its files, the request of certificates
-- (infra/credentials/mtls_cert.go) and the access service; the superseded client in ztna-cli_LEGACY.
-- What the code takes from these is an argument of the definitions that use it. The control plane of a
-- connection is the field `authorize` of its handler, which each call of a history has for itself, so
-- that its answers may change. The way of a resource's name through the URL of the gateway's request is
-- an argument too (`route` in System.Publication): the gateway does not escape it, and of the router
-- only that is assumed which a URL never changes, letters, digits, `-`, `.`, `_` and `~`.
pub mod Base
pub mod Gateway
pub mod ControlPlane
pub mod Client
pub mod System
mod Examples
