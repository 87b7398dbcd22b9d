-- ===== src/Gateway/Listener.antt =====
-- gateway/internal/infra/mtls/listener.go: the loop that accepts connections. Sockets and the TLS
-- handshake are outside; what one round of the loop meets is a value, with the list of revoked
-- certificates at that time, `none` where the listener has none.
use ztna_project.Base.{
  ◌≡◌, refl, inl, inr, Bool, true, false, ◌||◌, Option, none, some, List, [], ◌∷◌, if◌then◌else◌,
  Bool-cases, member,
}
use ztna_project.Gateway.Identity.{Certificate}
use ztna_project.Gateway.Revocation.{Store, is_revoked}

-- `closed` is an error of Accept after the context or the listener was closed; `presents` is a
-- handshake that succeeded, with the client's certificate.
pub data Accepted : Type 0 where
  closed accept_error not_tls handshake_failed no_certificate : Accepted
  presents : Certificate → Accepted

abbrev pub is_closed : Accepted → Bool
is_closed closed = true
is_closed other = false

abbrev pub Round : Type 0
Round = Accepted × Option Store

unfoldable pub is_on_list : Certificate → Option Store → Bool
unfolding is_revoked
is_on_list cert none = false
is_on_list cert (some store) = is_revoked cert.serial store

-- The certificates whose connections are handed to the handler, and whether the loop has ended.
unfoldable pub listen : List Round → List Certificate × Bool
unfolding is_on_list
listen [] = ([], false)
listen ((closed, crl) ∷ rest) = ([], true)
listen ((presents cert, crl) ∷ rest) =
    let later = listen rest in if is_on_list cert crl then later else (cert ∷ later.0, later.1)
listen ((accept_error, crl) ∷ rest) = listen rest
listen ((not_tls, crl) ∷ rest) = listen rest
listen ((handshake_failed, crl) ∷ rest) = listen rest
listen ((no_certificate, crl) ∷ rest) = listen rest

-- The rounds before the listener is closed, and whether it is.
abbrev pub before_close : List Round → List Round
before_close [] = []
before_close (r ∷ rest) = if is_closed r.0 then [] else r ∷ before_close rest

abbrev pub ever_closed : List Round → Bool
ever_closed [] = false
ever_closed (r ∷ rest) = is_closed r.0 || ever_closed rest

-- What a round hands over: the certificate of a handshake that succeeded, unless the list of that
-- round names it.
abbrev pub handed : Accepted → Option Store → Option Certificate
handed (presents cert) none = some cert
handed (presents cert) (some store) = if member cert.serial store.revoked then none else some cert
handed other crl = none

-- The certificates of the rounds that hand one over, one for each such round, in their order.
abbrev pub all_handed : List Round → List Certificate
all_handed [] = []
all_handed (r ∷ rest) = elim (handed r.0 r.1) [
  | none ↦ all_handed rest
  | some cert ↦ cert ∷ all_handed rest
]

listen-presents :
    (cert : Certificate) (crl : Option Store) (rest : List Round) (certs : List Certificate)
    (ended : Bool)
    → listen rest ≡ (certs, ended)
    → listen ((presents cert, crl) ∷ rest)
      ≡ (elim (handed (presents cert) crl) [ none ↦ certs | some c ↦ c ∷ certs ], ended)
unfolding listen is_on_list is_revoked
listen-presents cert none rest certs ended e = rw e refl
listen-presents cert (some store) rest certs ended e =
    elim (Bool-cases (member cert.serial store.revoked)) [
      | inl listed ↦ rw (listed, e) refl
      | inr free ↦ rw (free, e) refl
    ]

-- The connections that are handed to the handler are, in their order and each once, those of the
-- rounds before the listener is closed whose handshake presents a certificate that the list of the
-- revoked, as it is in that very round, does not name. Errors of other rounds do not end the loop;
-- it ends exactly if the listener is closed.
pub listen_lem :
    (rounds : List Round) → listen rounds ≡ (all_handed (before_close rounds), ever_closed rounds)
unfolding listen
listen_lem [] = refl
listen_lem ((closed, crl) ∷ rest) = refl
listen_lem ((accept_error, crl) ∷ rest) = listen_lem rest
listen_lem ((not_tls, crl) ∷ rest) = listen_lem rest
listen_lem ((handshake_failed, crl) ∷ rest) = listen_lem rest
listen_lem ((no_certificate, crl) ∷ rest) = listen_lem rest
listen_lem ((presents cert, crl) ∷ rest) = listen-presents cert crl rest _ _ (listen_lem rest)
