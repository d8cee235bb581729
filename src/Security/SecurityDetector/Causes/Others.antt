-- ===== src/Security/SecurityDetector/Causes/Others.antt =====
-- The checks of src/security/security_detector.cpp over whole lists add alerts with a cause.
use slipnet.Prelude.{
  ℕ, ◌≡◌, refl, ◌⊎◌, inl, inr, Bool, true, false, not, ◌&&◌, ◌||◌, List, [], ◌∷◌, leb, leb→le,
  Bool-cases, Bytes, codes, eq_bytes, eq_bytes_iff, is_empty, Has, arith,
}
use slipnet.Prelude.Int.{pos, eq_int, eq_int_iff}
use slipnet.Core.NetworkState.{PortInfo, ServiceInfo}
use slipnet.Security.SecurityDetector.Alerts.{Alert, contains_insensitive}
use slipnet.Security.SecurityDetector.Context.{
  saw_open, check_file_sharing, on_service, check_service_exposure, matching_open_port,
  on_consistency, check_service_port_consistency, count_open, check_attack_surface,
  administrative_services, check_administrative_exposure,
}
use slipnet.Security.SecurityDetector.Causes.{
  exposure, IsOpen, Cause, exposed, telnet_service, state_mismatch, very_large_surface,
  large_surface, many_administrative, Adds, same, Adds_trans, if_case, add_one,
}

saw_open-IsOpen :
    (n : ℕ) (b : Bool) (ports : List PortInfo)
    → saw_open (pos n) b ports ≡ true
    → (b ≡ true) ⊎ IsOpen n ports
unfolding saw_open
saw_open-IsOpen n b [] h = inl h
saw_open-IsOpen n b (p ∷ ports) h =
    elim (saw_open-IsOpen n (b || (p.is_open && eq_int p.port (pos n))) ports h) [
      | inl e ↦ here (Bool-cases b) e
      | inr k ↦ inr (inr k)
    ]
  where
    here :
        (b ≡ true) ⊎ (b ≡ false)
        → (b || (p.is_open && eq_int p.port (pos n))) ≡ true
        → (b ≡ true) ⊎ IsOpen n (p ∷ ports)
    here (inl t) e = inl t
    here (inr f) e = inr (inl (ground arith, (eq_int_iff p.port (pos n)).0 (ground arith)))

pub saw_open→IsOpen :
    (n : ℕ) (ports : List PortInfo) → saw_open (pos n) false ports ≡ true → IsOpen n ports
saw_open→IsOpen n ports h = elim (saw_open-IsOpen n false ports h) [
  | inl e ↦ absurd (cc e)
  | inr k ↦ k
]

module _ (ip : Bytes) (ports : List PortInfo) (services : List ServiceInfo) where
  abbrev C : Bytes → ℕ → Type 0
  C = Cause ip ports services

  pub check_file_sharing-Adds : (xs : List Alert) → Adds C xs (check_file_sharing ip ports xs)
  unfolding check_file_sharing exposure
  check_file_sharing-Adds xs =
      let smb =
        if_case (Adds C xs) (saw_open (pos 445) false ports)
          (λ e.
            add_one xs (codes "SMB_EXPOSED") _ 3 (exposed 445 (saw_open→IsOpen 445 ports e) refl))
          (λ _. same) in
      Adds_trans smb (
        if_case (Adds C _) (saw_open (pos 139) false ports)
          (λ e.
            add_one _ (codes "NETBIOS_EXPOSED") _ 2
              (exposed 139 (saw_open→IsOpen 139 ports e) refl))
          (λ _. same))

  -- The services that are left are among those of the analysis.
  abbrev Within : List ServiceInfo → Type 1
  Within rest = (P : ServiceInfo → Type 0) → Has P rest → Has P services

  on_service-Adds :
      (s : ServiceInfo) (rest : List ServiceInfo)
      → Within (s ∷ rest)
      → (xs : List Alert) → Adds C xs (on_service ip s xs)
  unfolding on_service
  on_service-Adds s rest w xs =
      if_case (Adds C xs) (not (eq_bytes s.ip ip)) (λ _. same)
        λ own.
          if_case (Adds C xs) (is_empty s.service) (λ _. same)
            λ _.
              if_case (Adds C xs) (contains_insensitive s.service (codes "telnet"))
                (λ e. add_one xs _ _ _ (
                  telnet_service (w _ (inl ((eq_bytes_iff s.ip ip).0 (ground arith), e))) refl
                    refl))
                (λ _. same)

  service_loop :
      (rest : List ServiceInfo)
      → Within rest
      → (xs : List Alert) → Adds C xs (check_service_exposure ip rest xs)
  unfolding check_service_exposure
  service_loop [] w xs = same
  service_loop (s ∷ rest) w xs =
      Adds_trans (on_service-Adds s rest w xs)
        (service_loop rest (λ P h. w P (inr h)) (on_service ip s xs))

  pub check_service_exposure-Adds :
      (xs : List Alert) → Adds C xs (check_service_exposure ip services xs)
  check_service_exposure-Adds xs = service_loop services (λ P h. h) xs

  on_consistency-Adds :
      (s : ServiceInfo) (rest : List ServiceInfo)
      → Within (s ∷ rest)
      → (xs : List Alert) → Adds C xs (on_consistency ip ports s xs)
  unfolding on_consistency
  on_consistency-Adds s rest w xs =
      if_case (Adds C xs) (not (eq_bytes s.ip ip)) (λ _. same)
        λ own.
          if_case (Adds C xs) (not (matching_open_port s.port ports))
            (λ e. add_one xs _ _ _ (
              state_mismatch (w _ (inl ((eq_bytes_iff s.ip ip).0 (ground arith), ground arith)))
                refl refl))
            (λ _. same)

  consistency_loop :
      (rest : List ServiceInfo)
      → Within rest
      → (xs : List Alert) → Adds C xs (check_service_port_consistency ip ports rest xs)
  unfolding check_service_port_consistency
  consistency_loop [] w xs = same
  consistency_loop (s ∷ rest) w xs =
      Adds_trans (on_consistency-Adds s rest w xs)
        (consistency_loop rest (λ P h. w P (inr h)) (on_consistency ip ports s xs))

  pub check_service_port_consistency-Adds :
      (xs : List Alert) → Adds C xs (check_service_port_consistency ip ports services xs)
  check_service_port_consistency-Adds xs = consistency_loop services (λ P h. h) xs

  pub check_attack_surface-Adds : (xs : List Alert) → Adds C xs (check_attack_surface ip ports xs)
  unfolding check_attack_surface
  check_attack_surface-Adds xs =
      if_case (Adds C xs) (leb 20 (count_open 0 ports))
        (λ e. add_one xs _ _ _ (very_large_surface (leb→le 20 (count_open 0 ports) e) refl refl))
        λ few.
          if_case (Adds C xs) (leb 10 (count_open 0 ports))
            (λ e. add_one xs _ _ _ (large_surface (ground arith) (ground arith) refl refl))
            (λ _. same)

  pub check_administrative_exposure-Adds :
      (xs : List Alert) → Adds C xs (check_administrative_exposure ip ports xs)
  unfolding check_administrative_exposure
  check_administrative_exposure-Adds xs =
      if_case (Adds C xs) (leb 2 (administrative_services ports))
        (λ e.
          add_one xs _ _ _
            (many_administrative (leb→le 2 (administrative_services ports) e) refl refl))
        (λ _. same)
