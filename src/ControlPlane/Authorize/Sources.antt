-- ===== src/ControlPlane/Authorize/Sources.antt =====
-- The address that the audit records.
use ztna_project.Base.{
  ◌≡◌, refl, ◌⊎◌, inl, inr, Bool, true, false, not, ◌&&◌, Option, none, some, [], if◌then◌else◌,
  Bool-cases, Text, codes, trim_space, is_empty, lookup, until, split_host_port,
}
use ztna_project.ControlPlane.Model.{Subject, Resource, Decision}
use ztna_project.ControlPlane.Policy.{text_of}
use ztna_project.ControlPlane.Requests.{
  AuthorizeRequest, Peer, extract_context_ip, extract_remote_ip, checked_ip, remote_ip,
}
use ztna_project.ControlPlane.Authorize.{Surroundings, audit_event}

-- Absent, or accepted by the parser of addresses.
abbrev IsChecked : (Text → Bool) → Text → Type 0
IsChecked is_ip t = (t ≡ []) ⊎ (is_ip t ≡ true)

IsChecked-if :
    (is_ip : Text → Bool) (t u : Text)
    → IsChecked is_ip u
    → IsChecked is_ip (if is_ip t then t else u)
IsChecked-if is_ip t u h = elim (Bool-cases (is_ip t)) [
  | inl good ↦ rw good (inr good)
  | inr bad ↦ rw bad h
]

IsChecked-and :
    (is_ip : Text → Bool) (b : Bool) (t u : Text)
    → IsChecked is_ip u
    → IsChecked is_ip (if b && is_ip t then t else u)
IsChecked-and is_ip true t u h = IsChecked-if is_ip t u h
IsChecked-and is_ip false t u h = h

checked_ip-IsChecked :
    (is_ip : Text → Bool) (o : Option Text) → IsChecked is_ip (checked_ip is_ip o)
checked_ip-IsChecked is_ip none = inl refl
checked_ip-IsChecked is_ip (some value) = elim (Bool-cases (is_empty (trim_space value))) [
  | inl blank ↦ rw blank (inl refl)
  | inr full ↦ rw full (IsChecked-if is_ip (trim_space value) [] (inl refl))
]

remote_ip-IsChecked :
    (is_ip : Text → Bool) (addr : Text) (o : Option (Text × Text))
    → IsChecked is_ip (remote_ip is_ip addr o)
remote_ip-IsChecked is_ip addr none = IsChecked-if is_ip addr [] (inl refl)
remote_ip-IsChecked is_ip addr (some (host, port)) =
    IsChecked-if is_ip host _ (IsChecked-if is_ip addr [] (inl refl))

extract_remote_ip-IsChecked :
    (is_ip : Text → Bool) (p : Peer) → IsChecked is_ip (extract_remote_ip is_ip p)
unfolding extract_remote_ip
extract_remote_ip-IsChecked is_ip p =
    IsChecked-and is_ip (not (is_empty p.forwarded_for)) (trim_space (until b',' p.forwarded_for)) _
      (IsChecked-and is_ip (not (is_empty (trim_space p.real_ip))) (trim_space p.real_ip) _
        (remote_ip-IsChecked is_ip p.remote_addr (split_host_port (trim_space p.remote_addr))))

-- The source address that the audit records is absent or an address, whatever the gateway and the
-- headers of the request claim.
audit_event-source_ip :
    (is_ip : Text → Bool) (w : Surroundings) (req : AuthorizeRequest) (subject : Subject)
    (resource : Resource) (d : Decision)
    → IsChecked is_ip (audit_event is_ip w req subject resource d).source_ip
unfolding audit_event extract_context_ip
audit_event-source_ip is_ip w req subject resource d =
    elim (Bool-cases (is_empty (extract_context_ip is_ip req.context))) [
      | inl blank ↦ rw (blank, audit_event) (extract_remote_ip-IsChecked is_ip w.peer)
      | inr full ↦
          rw (full, audit_event)
            (checked_ip-IsChecked is_ip (text_of (lookup (codes "src_ip") req.context)))
    ]
