-- ===== src/Network/NetworkDiscovery/Storing.antt =====
-- What a discovery of src/network/network_discovery.cpp stores: the hosts that answered, in the order
-- of their addresses; or nothing, where it is interrupted or has no interface.
use mathlib.Core.List.{append-nil, append_assoc}
use slipnet.Prelude.{
  ℕ, zero, suc, ◌+◌, ◌*◌, ◌/◌, ◌^◌, ◌<◌, ◌≤◌, ◌≡◌, refl, sym, ap, ◌∙◌, inl, inr, Bool, true, false,
  List, [], ◌∷◌, ◌++◌, map, if◌then◌else◌, Bool-cases, Bytes, is_empty, codes, not, ◌||◌, ◌%◌,
  eq_bytes, eq_bytes_iff, All, arith,
}
use slipnet.Prelude.Decimal.RoundTrip.{to_string-head}
use slipnet.Prelude.Keyed.{Fresh, upsert, upsert-Fresh, Fresh-upsert}
use slipnet.Core.NetworkState.{HostInfo, NetworkState, host_key, clear, add_host}
use slipnet.Host.HostDiscovery.{PingResult, ipv4_to_string}
use slipnet.Host.HostDiscovery.Generation.{addresses}
use slipnet.Network.NetworkDiscovery.{
  NetworkInterfaceInfo, integer_to_ip, generate_addresses, detect_local_network,
  calculate_network_address, ip_to_integer, offline, Progress, ping_all, finish, found_host,
  store_hosts, discover_network, discover,
}
use slipnet.Network.NetworkDiscovery.Integers.{
  ip_to_integer-integer_to_ip, calculate_network_address-integer_to_ip, network_addresses,
  generate_addresses-network,
}
use slipnet.Network.NetworkDiscovery.Progressing.{answer, ping_all-answers, ping_all_stopped}

-- The texts are pairwise different.
abbrev Apart : List Bytes → Type 0
Apart [] = Unit
Apart (a ∷ rest) = All (λ b. eq_bytes a b ≡ false) rest × Apart rest

different : (a b : ℕ) → a < b → b < 2 ^ 32 → eq_bytes (integer_to_ip a) (integer_to_ip b) ≡ false
different a b l h = elim (Bool-cases (eq_bytes (integer_to_ip a) (integer_to_ip b))) [
  | inr e ↦ e
  | inl e ↦
      let same : a ≡ b =
        sym (ip_to_integer-integer_to_ip a (omega arith))
        ∙ ap ip_to_integer ((eq_bytes_iff (integer_to_ip a) (integer_to_ip b)).0 e)
        ∙ ip_to_integer-integer_to_ip b h in
      absurd (omega arith)
]

different-All :
    (a n b : ℕ)
    → a < b
    → b + n ≤ 2 ^ 32
    → All (λ t. eq_bytes (integer_to_ip a) t ≡ false) (map integer_to_ip (addresses n b))
different-All a zero b l h = tt
different-All a (suc n) b l h =
    (different a b l (omega arith), different-All a n (b + 1) (omega arith) (omega arith))

addresses-Apart : (n a : ℕ) → a + n ≤ 2 ^ 32 → Apart (map integer_to_ip (addresses n a))
addresses-Apart zero a h = tt
addresses-Apart (suc n) a h =
    (different-All a n (a + 1) (omega arith) (omega arith), addresses-Apart n (a + 1) (omega arith))

chosen_network :
    (interfaces : List NetworkInterfaceInfo)
    → is_empty (detect_local_network interfaces).ip ≡ false
    → (detect_local_network interfaces).network
      ≡ calculate_network_address (detect_local_network interfaces).ip
unfolding detect_local_network
chosen_network [] h = absurd (cc)
chosen_network (i ∷ interfaces) h =
    elim (Bool-cases
      (not i.up || is_empty i.ipv4_address || eq_bytes i.ipv4_address (codes "127.0.0.1"))) [
        | inl e ↦ rw e (chosen_network interfaces (rw e at h))
        | inr e ↦ rw e refl
      ]

is_empty-integer_to_ip : (a : ℕ) → is_empty (integer_to_ip a) ≡ false
unfolding integer_to_ip ipv4_to_string
is_empty-integer_to_ip a = let (c, s, e, d) = to_string-head (a / 2 ^ 24 % 2 ^ 8) in rw e refl

module _ {Double : Type 0} (ping : Bytes → PingResult Double) where
  -- The hosts found at those of the ips that answer, in the order of the ips.
  abbrev pub hosts_found : List Bytes → List (HostInfo Double)
  hosts_found [] = []
  hosts_found (a ∷ rest) =
      if answer ping a then found_host ping a ∷ hosts_found rest else hosts_found rest

  -- No address is that of a host stored.
  AllFresh : List Bytes → List (HostInfo Double) → Type 0
  AllFresh ips hosts = All (λ a. Fresh host_key a hosts) ips

  AllFresh-upsert :
      (a : Bytes) (ips : List Bytes) (hosts : List (HostInfo Double))
      → All (λ b. eq_bytes a b ≡ false) ips
      → AllFresh ips hosts
      → AllFresh ips (upsert host_key (found_host ping a) hosts)
  unfolding AllFresh
  AllFresh-upsert a [] hosts d h = tt
  AllFresh-upsert a (b ∷ ips) hosts d h = (
    Fresh-upsert host_key (found_host ping a) b hosts d.0 h.0,
    AllFresh-upsert a ips hosts d.1 h.1,
  )

  store_hosts-hosts_found :
      (ips : List Bytes) (s : NetworkState Double)
      → Apart ips
      → AllFresh ips s.hosts
      → store_hosts ping ips (map (answer ping) ips) s
        ≡ record s { hosts = s.hosts ++ hosts_found ips }
  unfolding store_hosts AllFresh
  store_hosts-hosts_found [] s d h = ap (λ l. record s { hosts = l }) (sym (append-nil s.hosts))
  store_hosts-hosts_found (a ∷ ips) s d h = elim (Bool-cases (answer ping a)) [
    | inr e ↦ rw e (store_hosts-hosts_found ips s d.1 h.1)
    | inl e ↦
        let stored = upsert-Fresh host_key (found_host ping a) s.hosts h.0 in
        rw e (
          store_hosts-hosts_found ips (add_host (found_host ping a) s) d.1
            (unfold add_host in AllFresh-upsert a ips s.hosts d.0 h.1)
          ∙ (unfold add_host in
              ap (λ l. record s { hosts = l ++ hosts_found ips }) stored
              ∙ ap (λ l. record s { hosts = l })
                  (append_assoc s.hosts (found_host ping a ∷ []) (hosts_found ips))))
  ]

  fresh_empty : (ips : List Bytes) → AllFresh ips []
  unfolding AllFresh
  fresh_empty [] = tt
  fresh_empty (a ∷ ips) = (tt, fresh_empty ips)

  -- What a completed discovery of these hosts leaves.
  abbrev pub holding : List (HostInfo Double) → NetworkState Double
  holding hosts = record { hosts = hosts; host_ports = []; services = [] }

  module _ (interfaces : List NetworkInterfaceInfo) (a : ℕ) (h : a < 2 ^ 32)
      (chosen : (detect_local_network interfaces).ip ≡ integer_to_ip a) where
    network_is : (detect_local_network interfaces).network ≡ integer_to_ip (a / 2 ^ 8 * 2 ^ 8)
    network_is =
        chosen_network interfaces (ap is_empty chosen ∙ is_empty-integer_to_ip a)
        ∙ ap calculate_network_address chosen
        ∙ calculate_network_address-integer_to_ip a h

    begin : Progress
    begin = record { online = offline 254; tasks = []; completed = 0 }

    probed : (ℕ → Bool) → List Bytes → Bool × NetworkState Double
    unfolding begin
    probed stop ips = finish ping ips (holding []) (ping_all ping stop 0 ips begin)

    generated : ℕ → List Bytes
    generated value = generate_addresses 255 ((value + 1) % 2 ^ 32) ((value + 254) % 2 ^ 32)

    discover_network_begin :
        (stop : ℕ → Bool) (network : Bytes)
        → discover_network ping stop network (holding [])
          ≡ probed stop (generated (ip_to_integer network))
    unfolding discover_network probed begin generated
    discover_network_begin stop network = refl

    discover_begin :
        (stop : ℕ → Bool) (s : NetworkState Double)
        → discover ping interfaces stop s ≡ probed stop (network_addresses a)
    unfolding discover clear probed generated
    discover_begin stop s =
        let value = a / 2 ^ 8 * 2 ^ 8 in
        let reads : ip_to_integer (integer_to_ip value) ≡ value =
          ip_to_integer-integer_to_ip value (omega arith) in
        rw (chosen, is_empty-integer_to_ip a, network_is)
          (discover_network_begin stop (integer_to_ip value)
            ∙ ap (λ v. probed stop (generated v)) reads
            ∙ ap (probed stop) (generate_addresses-network a h))

    -- Where the interface chosen has this address and the interrupt flag is never set, a discovery
    -- succeeds, and the state then holds the hosts 1 to 254 of the network that answered, each once
    -- and in the order of their addresses, and no ports or services.
    pub discover-hosts_found :
        (stop : ℕ → Bool) (s : NetworkState Double)
        → ((n : ℕ) → stop n ≡ false)
        → discover ping interfaces stop s ≡ (true, holding (hosts_found (network_addresses a)))
    unfolding probed begin
    discover-hosts_found stop s never =
        let ips = network_addresses a in
        let (q, e, all) = ping_all-answers ping stop ips never in
        discover_begin stop s
        ∙ ap (finish ping ips (holding [])) e
        ∙ ap (λ online. (true, store_hosts ping ips online (holding []))) all
        ∙ ap (λ t. (true, t))
            (store_hosts-hosts_found ips (holding [])
              (addresses-Apart 254 (a / 2 ^ 8 * 2 ^ 8 + 1) (omega arith)) (fresh_empty ips))

    -- Where the flag is set at one of the 254 questions for it, the discovery fails, and leaves the
    -- state with nothing in it.
    pub discover_stopped :
        (stop : ℕ → Bool) (s : NetworkState Double) (i : ℕ)
        → i < 254
        → stop i ≡ true
        → discover ping interfaces stop s ≡ (false, holding [])
    unfolding probed
    discover_stopped stop s i k e =
        discover_begin stop s
        ∙ ap (finish ping (network_addresses a) (holding [])) (
            ping_all_stopped ping stop 0 i (network_addresses a) begin (ap stop (omega arith) ∙ e)
              k)
