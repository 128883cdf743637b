-- ===== src/Scan/Reach.antt =====
-- Which addresses a scan pings, connects to and sends requests to.
use lvyou_smsweb.World.{
  Env, World, Call, Exec, ScanState, Network, Exc, ask, send, put_scans, time, ◌>>=◌, http, pure,
  other, ok, traverse, or_raise, ◌>>◌,
}
use lvyou_smsweb.World.Preserves.{
  Preserves, preserves_rules, Preserves-bind, Preserves-bind_ok, Preserves-traverse-All,
  traverse-All, ok-inj, Preserves-try, Preserves-or_raise, Preserves-pure, Preserves-if,
}
use lvyou_smsweb.Prelude.{
  String, ℕ, All, List, Option, Each, ◌∷◌, some, none, [], ◌≡◌, map, subst, Bool, if◌then◌else◌,
  true, false, ◌≤◌, Each-elim,
}
use lvyou_smsweb.Scan.Hosts.Inside.{IsInside, ip_list-IsInside, first_hosts-IsInside}
use lvyou_smsweb.Scan.Worker.{
  probe_board, probe_port, keep_some, scan_network, skip_http, scan_worker,
}
use lvyou_smsweb.Security.Allow.{local_ipv4_networks, set_nets}
use lvyou_smsweb.Security.Address.Networks.{IsNetwork, ip_network-IsNetwork}
use lvyou_smsweb.Scan.Registry.{on_scan}
use lvyou_smsweb.Client.Probe.{istargetdevice}
use lvyou_smsweb.Security.Contact.{contact, tcp_port_open}
use lvyou_smsweb.Security.Commands.Kept.{
  tcp_port_open-Kept, prewarm_neighbors-Kept, get_arp_table-Kept,
}
use lvyou_smsweb.Security.Allow.Layers.{ensure-Preserves}
use lvyou_smsweb.Client.Probe.Kept.{attempts-Kept}
use lvyou_smsweb.Scan.Hosts.{ip_list}
use lvyou_smsweb.Security.Address.{ip_network}

-- Everything contacted so far lies in a network.
pub record Reached (env : Env) (net : Network) (w : World) : Type 0 where
  pub contacts : All (IsInside env net) w.contacts
  pub sent : All (λ c. IsInside env net c.ip) w.sent

module _ (env : Env) (net : Network) where
  abbrev Stays : {A : Type 0} → Exec A → Type 0
  Stays m = Preserves (Reached env net) m

  ask-Stays : (A : Type 0) (f : ℕ → A) → Stays (ask f)
  unfolding ask
  ask-Stays A f = record { holds = λ w h. record { contacts = h.contacts; sent = h.sent } }

  send-Stays : (c : Call) → IsInside env net c.ip → Stays (send env c)
  unfolding send
  send-Stays c i = record { holds = λ w h. record { contacts = h.contacts; sent = (i, h.sent) } }

  contact-Stays : (ip : String) → IsInside env net ip → Stays (contact ip)
  unfolding contact
  contact-Stays ip i = record {
    holds = λ w h. record { contacts = (i, h.contacts); sent = h.sent };
  }

  on_scan-Stays : (id : String) (f : ScanState → ScanState) → Stays (on_scan id f)
  unfolding on_scan put_scans
  on_scan-Stays id f = record { holds = λ w h. record { contacts = h.contacts; sent = h.sent } }

  set_nets-Stays : (entry : ℕ × List Network) → Stays (set_nets entry)
  unfolding set_nets
  set_nets-Stays entry = record { holds = λ w h. record { contacts = h.contacts; sent = h.sent } }

  local_ipv4_networks-Stays : Stays (local_ipv4_networks env)
  unfolding local_ipv4_networks time
  local_ipv4_networks-Stays = search (preserves_rules, ask-Stays, set_nets-Stays) depth 12

  istargetdevice-Stays :
      (ip user pw : String) → IsInside env net ip → Stays (istargetdevice env ip user pw)
  unfolding istargetdevice
  istargetdevice-Stays ip user pw i =
      Preserves-bind _ _ (ensure-Preserves env ip local_ipv4_networks-Stays)
        (λ _. attempts-Kept env (Reached env net) (IsInside env net) send-Stays ip user pw _ none i)

  skip_http-Stays : (e : Exc) → Stays (skip_http env e)
  skip_http-Stays (http status detail) = search preserves_rules
  skip_http-Stays (other text) = search preserves_rules

  probe_board-Stays :
      (arptable : List (String × String)) (group : Option String) (user password ip : String)
      → IsInside env net ip
      → Stays (probe_board env arptable group user password ip)
  unfolding probe_board
  probe_board-Stays arptable group user password ip i =
      search (preserves_rules, istargetdevice-Stays, skip_http-Stays)

  probe_port-Stays : (ip : String) → IsInside env net ip → Stays (probe_port env ip)
  unfolding probe_port
  probe_port-Stays ip i =
      let opened =
        tcp_port_open-Kept env (Reached env net) ask-Stays (IsInside env net) contact-Stays in
      search (preserves_rules, opened)

  keep_some-All :
      (K : String → Type 0) (os : List (Option String)) → All (Each K) os → All K (keep_some os)
  keep_some-All K [] h = tt
  keep_some-All K (none ∷ os) (k, h) = keep_some-All K os h
  keep_some-All K (some ip ∷ os) (k, h) = (k, keep_some-All K os h)

  if-Each :
      (K : String → Type 0) (ip : String) → K ip → (b : Bool) → Each K (if b then some ip else none)
  if-Each K ip k true = k
  if-Each K ip k false = tt

  -- An open port is one of an address that was tried.
  probe_port-Each :
      (K : String → Type 0) (ip : String) (w : World) (o : Option String)
      → K ip
      → (probe_port env ip w).0 ≡ ok o
      → Each K o
  unfolding probe_port tcp_port_open contact ask ◌>>=◌ pure
  probe_port-Each K ip w o k e = subst (Each K) (ok-inj e) (if-Each K ip k (env.tcp_open _ ip))

  module _ (id : String) (valid : IsNetwork net) where
    scan_network-Stays :
        (group : Option String) (user password : String)
        → Stays (scan_network env id net group user password)
    unfolding scan_network
    scan_network-Stays group user password = Preserves-bind _ _ (on_scan-Stays id _) (λ _.
        Preserves-bind _ _
          (prewarm_neighbors-Kept env (Reached env net) ask-Stays (IsInside env net) contact-Stays
            net (first_hosts-IsInside env net valid _))
          (λ _. Preserves-bind _ _ (get_arp_table-Kept env (Reached env net) ask-Stays) (λ arptable.
            let ips = ip_list env (map (λ e. e.0) arptable) net in
            let inside = ip_list-IsInside env net valid (map (λ e. e.0) arptable) in
            Preserves-bind _ _ (on_scan-Stays id _) (λ _.
              Preserves-bind _ _ (on_scan-Stays id _) (λ _.
                Preserves-bind_ok (traverse (probe_port env) ips) _
                  (Preserves-traverse-All (IsInside env net) (probe_port env) ips probe_port-Stays
                    inside)
                  (λ w opened e.
                    let K = IsInside env net in
                    let found = keep_some-All K opened (
                      traverse-All K (Each K) (probe_port env) (probe_port-Each K) ips w opened
                        inside e) in
                    let probes =
                      Preserves-traverse-All K (probe_board env arptable group user password)
                        (keep_some opened) (probe_board-Stays arptable group user password) found in
                    Preserves-bind _ _ (on_scan-Stays id _) (λ _.
                      Preserves-bind _ _ (on_scan-Stays id _) (λ _.
                        Preserves-bind _ _ probes (λ probed.
                          Preserves-bind _ _ (on_scan-Stays id _) (λ _. on_scan-Stays id _))))))))))

    -- The network that the worker finds in the text.
    scan_worker-Stays :
        (cidr : String) (group : Option String) (user password : String)
        → ip_network env cidr ≡ some net
        → Stays (scan_worker env id cidr group user password)
    unfolding scan_worker or_raise
    scan_worker-Stays cidr group user password e = rw e (
        Preserves-bind _ _
          (Preserves-try _ _
            (Preserves-bind _ _ (on_scan-Stays id _) (λ _.
              Preserves-bind_ok _ _
                (Preserves-or_raise (some net) (other "does not appear to be an IPv4 network"))
                (λ w found same.
                  subst (λ n. Stays (scan_network env id n group user password >> pure true))
                    (ok-inj same)
                    (Preserves-bind _ _ (scan_network-Stays group user password)
                      (λ _. Preserves-pure true)))))
            (λ exc. Preserves-bind _ _ (on_scan-Stays id _) (λ _. Preserves-pure false)))
          (λ good. Preserves-if good _ _ (λ _. on_scan-Stays id _) (λ _. Preserves-pure tt)))

-- A scan stays inside the network that it was given: if the text of the request denotes the IPv4
-- network `net` (and no netmask stands for a prefix of more than 32 bits), then every address that
-- the scan pings, connects to or sends a request to is the address of a host in `net`, whatever the
-- table of neighbours holds and whatever the hosts answer.
pub scan_worker-Reached :
    (env : Env) (id cidr : String) (net : Network) (group : Option String) (user password : String)
    (w : World)
    → ((s : String) → Each (λ p. p ≤ 32) (env.parse_mask s))
    → ip_network env cidr ≡ some net
    → Reached env net w
    → Reached env net (scan_worker env id cidr group user password w).1
scan_worker-Reached env id cidr net group user password w mask_bound e h =
    let valid = Each-elim IsNetwork _ net (ip_network-IsNetwork env mask_bound cidr) e in
    (scan_worker-Stays env net id valid cidr group user password e).holds w h
