-- ===== src/Core/NetworkState/Refinement.antt =====
-- The vectors of src/core/network_state.cpp refine three maps.
use slipnet.Prelude.{
  ◌≡◌, refl, ◌∙◌, ap, List, [], ◌∷◌, Option, none, some, if◌then◌else◌, arith, Bytes, eq_bytes,
  eq_bytes_iff,
}
use mathlib.Core.Path.{fun_ext}
use slipnet.Prelude.Int.{ℤ, eq_int}
use slipnet.Prelude.Keyed.{find, find-upsert}
use slipnet.Core.NetworkState.{
  HostInfo, PortInfo, ServiceInfo, HostPorts, NetworkState, port_key, service_key, same_service,
  put_port, ports_of, host_key, clear, add_host, add_port, get_ports, get_hosts, get_services,
  add_service, Call, clears, adds_host, adds_port, adds_service, step, run,
}

-- What a client can look up, with the order of the entries forgotten.
pub record View (Double : Type 0) : Type 0 where
  pub host : Bytes → Option (HostInfo Double)
  pub port : Bytes → ℤ → Option PortInfo
  pub service : Bytes × ℤ → Option ServiceInfo

module _ {Double : Type 0} where
  abbrev pub view : NetworkState Double → View Double
  view s = record {
    host = λ ip. find host_key ip (get_hosts s);
    port = λ ip n. find port_key n (get_ports ip s);
    service = λ k. find service_key k (get_services s);
  }

  -- The specification: each call updates one map at one key, or clears all three.
  abbrev pub update : Call Double → View Double → View Double
  update clears v = record { host = λ _. none; port = λ _ _. none; service = λ _. none }
  update (adds_host h) v = record v { host = λ ip. if eq_bytes h.ip ip then some h else v.host ip }
  update (adds_port ip p) v = record v {
    port = λ j n.
        if eq_bytes ip j then (if eq_int p.port n then some p else v.port j n) else v.port j n;
  }
  update (adds_service t) v = record v {
    service = λ k. if same_service (t.ip, t.port) k then some t else v.service k;
  }

  abbrev pub updates : List (Call Double) → View Double → View Double
  updates [] v = v
  updates (c ∷ cs) v = updates cs (update c v)

find-put_port :
    (ip j : Bytes) (port : PortInfo) (n : ℤ) (l : List HostPorts)
    → find port_key n (ports_of j (put_port ip port l)) ≡ (
        if eq_bytes ip j
        then (if eq_int port.port n then some port else find port_key n (ports_of j l))
        else find port_key n (ports_of j l))
unfolding ports_of put_port find
find-put_port ip j port n [] = ground arith
find-put_port ip j port n (x ∷ xs) = ground (
  arith,
  eq_bytes_iff x.ip ip,
  eq_bytes_iff x.ip j,
  eq_bytes_iff ip j,
  find-upsert port_key port n x.ports,
  find-put_port ip j port n xs,
)

module _ {Double : Type 0} where
  -- A call on the vectors is the update of the maps.
  pub view-step : (c : Call Double) (s : NetworkState Double) → view (step c s) ≡ update c (view s)
  unfolding clear add_host add_port add_service get_hosts get_ports get_services ports_of find
  view-step clears s = refl
  view-step (adds_host h) s =
      ap (λ f. record { host = f; port = (view s).port; service = (view s).service })
        (fun_ext (λ ip. find-upsert host_key h ip s.hosts))
  view-step (adds_port ip p) s =
      ap (λ f. record { host = (view s).host; port = f; service = (view s).service })
        (fun_ext (λ j. fun_ext (λ n. find-put_port ip j p n s.host_ports)))
  view-step (adds_service t) s =
      ap (λ f. record { host = (view s).host; port = (view s).port; service = f })
        (fun_ext (λ k. find-upsert service_key t k s.services))

  -- After any sequence of calls, each lookup of a host, a port or a service gives what the maps
  -- give that are updated call by call: the entry added last for the key since the last `clear`.
  pub view-run :
      (cs : List (Call Double)) (s : NetworkState Double) → view (run cs s) ≡ updates cs (view s)
  view-run [] s = refl
  view-run (c ∷ cs) s = view-run cs (step c s) ∙ ap (updates cs) (view-step c s)
