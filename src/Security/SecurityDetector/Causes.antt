-- ===== src/Security/SecurityDetector/Causes.antt =====
-- What makes src/security/security_detector.cpp raise an alert, as a table of ports and four other
-- reasons; and lists of alerts that grow by alerts with a cause only.
pub mod Ports
pub mod Others
use slipnet.Prelude.{
  ℕ, ◌≤◌, ◌<◌, ◌≡◌, refl, ◌∙◌, sym, ◌⊎◌, inl, inr, Bool, true, false, not, ◌&&◌, Option, none, some,
  List, [], ◌∷◌, ◌==◌, leb, if◌then◌else◌, Bytes, codes, eq_bytes, All, Has, arith,
}
use slipnet.Prelude.Int.{ℤ, pos, eq_int, eq_int_iff}
use slipnet.Core.NetworkState.{PortInfo, ServiceInfo}
use slipnet.Security.SecurityDetector.Alerts.{Alert, contains_insensitive, add_alert, for_ports}
use slipnet.Security.SecurityDetector.Context.{
  matching_open_port, count_open, administrative_services,
}

-- The alert type and the severity for an open port.
abbrev pub exposures : List (ℕ × Bytes × ℕ)
exposures =
    (23, codes "TELNET_EXPOSED", 3)
    ∷ (21, codes "FTP_EXPOSED", 2)
    ∷ (69, codes "TFTP_EXPOSED", 3)
    ∷ (3306, codes "DATABASE_EXPOSED", 3)
    ∷ (5432, codes "DATABASE_EXPOSED", 3)
    ∷ (27017, codes "DATABASE_EXPOSED", 3)
    ∷ (6379, codes "CACHE_EXPOSED", 3)
    ∷ (9200, codes "SEARCH_ENGINE_EXPOSED", 3)
    ∷ (22, codes "SSH_EXPOSED", 1)
    ∷ (3389, codes "RDP_EXPOSED", 3)
    ∷ (5900, codes "VNC_EXPOSED", 2)
    ∷ (161, codes "SNMP_EXPOSED", 2)
    ∷ (2375, codes "DOCKER_API_EXPOSED", 3)
    ∷ (2376, codes "DOCKER_TLS_API_EXPOSED", 2)
    ∷ (25, codes "SMTP_EXPOSED", 1)
    ∷ (110, codes "POP3_EXPOSED", 2)
    ∷ (143, codes "IMAP_EXPOSED", 1)
    ∷ (80, codes "HTTP_EXPOSED", 1)
    ∷ (111, codes "RPC_EXPOSED", 2)
    ∷ (2049, codes "NFS_EXPOSED", 3)
    ∷ (5000, codes "APPLICATION_SERVICE_EXPOSED", 1)
    ∷ (445, codes "SMB_EXPOSED", 3)
    ∷ (139, codes "NETBIOS_EXPOSED", 2)
    ∷ []

abbrev pub exposure_in : List (ℕ × Bytes × ℕ) → ℕ → Option (Bytes × ℕ)
exposure_in [] n = none
exposure_in ((m, type, severity) ∷ rest) n =
    if m == n then some (type, severity) else exposure_in rest n

unfoldable pub exposure : ℕ → Option (Bytes × ℕ)
exposure n = exposure_in exposures n

abbrev pub IsOpenAt : ℕ → PortInfo → Type 0
IsOpenAt n p = (p.is_open ≡ true) × (p.port ≡ pos n)

-- A port of the number is among the ports, and open.
abbrev pub IsOpen : ℕ → List PortInfo → Type 0
IsOpen n ports = Has (IsOpenAt n) ports

-- A reason for an alert of the type and the severity.
pub data Cause (ip : Bytes) (ports : List PortInfo) (services : List ServiceInfo) (type : Bytes)
    (severity : ℕ) : Type 0 where
  exposed :
      (n : ℕ)
      → IsOpen n ports
      → exposure n ≡ some (type, severity)
      → Cause ip ports services type severity
  telnet_service :
      Has (λ s. (s.ip ≡ ip) × (contains_insensitive s.service (codes "telnet") ≡ true)) services
      → type ≡ codes "LEGACY_SERVICE_DETECTED"
      → severity ≡ 3
      → Cause ip ports services type severity
  state_mismatch :
      Has (λ s. (s.ip ≡ ip) × (matching_open_port s.port ports ≡ false)) services
      → type ≡ codes "SERVICE_STATE_MISMATCH"
      → severity ≡ 1
      → Cause ip ports services type severity
  very_large_surface :
      20 ≤ count_open 0 ports
      → type ≡ codes "VERY_LARGE_ATTACK_SURFACE"
      → severity ≡ 3
      → Cause ip ports services type severity
  large_surface :
      10 ≤ count_open 0 ports
      → count_open 0 ports < 20
      → type ≡ codes "LARGE_ATTACK_SURFACE"
      → severity ≡ 2
      → Cause ip ports services type severity
  many_administrative :
      2 ≤ administrative_services ports
      → type ≡ codes "MULTIPLE_ADMIN_SERVICES"
      → severity ≡ 2
      → Cause ip ports services type severity

-- The second list is the first with alerts added, each with a cause.
pub data Adds (C : Bytes → ℕ → Type 0) (alerts : List Alert) : List Alert → Type 0 where
  same : Adds C alerts alerts
  added :
      {more : List Alert} (type description : Bytes) (severity : ℕ)
      → C type severity
      → Adds C alerts more
      → Adds C alerts (add_alert more type description severity)

pub Adds_trans :
    {C : Bytes → ℕ → Type 0} {a b c : List Alert} → Adds C a b → Adds C b c → Adds C a c
Adds_trans h same = h
Adds_trans h (added t d s c k) = added t d s c (Adds_trans h k)

-- A branch of a check.
pub if_case {ℓ} :
    {A : Type 0} (P : A → Type ℓ) (b : Bool) {x y : A}
    → (b ≡ true → P x)
    → (b ≡ false → P y)
    → P (if b then x else y)
if_case P true f g = f refl
if_case P false f g = g refl

module _ {C : Bytes → ℕ → Type 0} where
  pub add_one :
      (alerts : List Alert) (type description : Bytes) (severity : ℕ)
      → C type severity
      → Adds C alerts (add_alert alerts type description severity)
  add_one alerts type description severity c = added type description severity c same

  -- A loop over ports adds with causes if each round does.
  pub for_ports-Adds :
      (body : PortInfo → List Alert → List Alert) (ports : List PortInfo) (alerts : List Alert)
      → All (λ p. (xs : List Alert) → Adds C xs (body p xs)) ports
      → Adds C alerts (for_ports body ports alerts)
  unfolding for_ports
  for_ports-Adds body [] alerts h = same
  for_ports-Adds body (p ∷ ports) alerts h =
      Adds_trans (h.0 alerts) (for_ports-Adds body ports (body p alerts) h.1)

pub All-map :
    {A : Type 0} (P Q : A → Type 0) (xs : List A) → ((x : A) → P x → Q x) → All P xs → All Q xs
All-map P Q [] f h = tt
All-map P Q (x ∷ xs) f h = (f x h.0, All-map P Q xs f h.1)

-- A port of a list that is open at a number shows that the number is open in the list.
pub self-IsOpen : (ports : List PortInfo) → All (λ p. (n : ℕ) → IsOpenAt n p → IsOpen n ports) ports
self-IsOpen [] = tt
self-IsOpen (p ∷ ports) = (
  λ n h. inl h,
  All-map (λ q. (n : ℕ) → IsOpenAt n q → IsOpen n ports)
      (λ q. (n : ℕ) → IsOpenAt n q → IsOpen n (p ∷ ports)) ports (λ q f n h. inr (f n h))
      (self-IsOpen ports),
)

-- The cause at a branch for a port number.
pub expose :
    {ip : Bytes} {ports : List PortInfo} {services : List ServiceInfo} (p : PortInfo) (n : ℕ)
    {type : Bytes} {severity : ℕ}
    → ((m : ℕ) → IsOpenAt m p → IsOpen m ports)
    → not p.is_open ≡ false
    → eq_int p.port (pos n) ≡ true
    → exposure n ≡ some (type, severity)
    → Cause ip ports services type severity
expose p n w o e row = exposed n (w n (ground arith, (eq_int_iff p.port (pos n)).0 e)) row
