-- ===== src/Scan/Confined.antt =====
-- Which boards a scan sends requests to.
use lvyou_smsweb.World.{Env, Exc, ScanState, Network, ScanItem, http, other}
use lvyou_smsweb.Scan.Worker.{
  probe_port, probe_board, save_results, run_scan_bg, run_scan, scan_worker, scan_network,
  save_item, after_scan, skip_http,
}
use lvyou_smsweb.Scan.Routes.{choose_cidr, scanstart, scanstatus, submit_scan, accept_scan}
use lvyou_smsweb.Scan.Registry.{get_scan, cleanup_old_scans, mark_done, on_scan}
use lvyou_smsweb.Prelude.{String, List, Option, [], some, none, All-Unit}
use lvyou_smsweb.Devices.Confined.Rows.{upsertdevice-Safe}
use lvyou_smsweb.Invariant.{Safe, base_rules, put_scans-Safe, Good, ask-Safe}
use lvyou_smsweb.Client.Confined.{istargetdevice-Safe}
use lvyou_smsweb.Security.Contact.{tcp_port_open, prewarm_neighbors, contact}
use lvyou_smsweb.Security.Commands.{guess_ipv4_cidr, get_arp_table}
use lvyou_smsweb.Security.Commands.Kept.{
  get_arp_table-Kept, prewarm_neighbors-Kept, guess_ipv4_cidr-Kept, tcp_port_open-Kept,
}

module _ (env : Env) (H : Type 0) where
  on_scan-Safe : (id : String) (f : ScanState → ScanState) → Safe env H (on_scan id f)
  unfolding on_scan
  on_scan-Safe id f = put_scans-Safe env H _

  get_scan-Safe : (id : String) → Safe env H (get_scan id)
  unfolding get_scan
  get_scan-Safe id = search base_rules

  mark_done-Safe : (id : String) → Safe env H (mark_done env id)
  unfolding mark_done
  mark_done-Safe id = search (base_rules)

  pub cleanup_old_scans-Safe : Safe env H (cleanup_old_scans env)
  unfolding cleanup_old_scans
  cleanup_old_scans-Safe = search (base_rules)

  contact-Safe : (ip : String) → Unit {0} → Safe env H (contact ip)
  unfolding contact
  contact-Safe ip k = record { holds = λ w h. record { confined = h.confined; owned = h.owned } }

  guess_ipv4_cidr-Safe : Safe env H (guess_ipv4_cidr env)
  guess_ipv4_cidr-Safe = guess_ipv4_cidr-Kept env (Good env H) (λ A f. ask-Safe env H f)

  get_arp_table-Safe : Safe env H (get_arp_table env)
  get_arp_table-Safe = get_arp_table-Kept env (Good env H) (λ A f. ask-Safe env H f)

  tcp_port_open-Safe : (ip : String) → Safe env H (tcp_port_open env ip)
  tcp_port_open-Safe ip =
      tcp_port_open-Kept env (Good env H) (λ A f. ask-Safe env H f) (λ _. Unit {0}) contact-Safe ip
        tt

  prewarm_neighbors-Safe : (net : Network) → Safe env H (prewarm_neighbors env net)
  prewarm_neighbors-Safe net =
      prewarm_neighbors-Kept env (Good env H) (λ A f. ask-Safe env H f) (λ _. Unit {0}) contact-Safe
        net (All-Unit _)

  probe_port-Safe : (ip : String) → Safe env H (probe_port env ip)
  unfolding probe_port
  probe_port-Safe ip = search (base_rules, tcp_port_open-Safe)

  skip_http-Safe : (e : Exc) → Safe env H (skip_http env e)
  skip_http-Safe (http status detail) = search base_rules
  skip_http-Safe (other text) = search base_rules

  probe_board-Safe :
      (arptable : List (String × String)) (group : Option String) (user password ip : String)
      → Safe env H (probe_board env arptable group user password ip)
  unfolding probe_board
  probe_board-Safe arptable group user password ip =
      search (base_rules, istargetdevice-Safe, skip_http-Safe)

  module _ (id : String) where
    scan_network-Safe :
        (net : Network) (group : Option String) (user password : String)
        → Safe env H (scan_network env id net group user password)
    unfolding scan_network
    scan_network-Safe net group user password =
        search
          (
            base_rules, probe_port-Safe, probe_board-Safe, prewarm_neighbors-Safe,
            get_arp_table-Safe,
          )
          depth 24

    scan_worker-Safe :
        (cidr : String) (group : Option String) (user password : String)
        → Safe env H (scan_worker env id cidr group user password)
    unfolding scan_worker
    scan_worker-Safe cidr group user password = search (base_rules, scan_network-Safe) depth 12

    save_item-Safe : (item : ScanItem) → Safe env H (save_item env id item)
    unfolding save_item
    save_item-Safe item = search (base_rules, upsertdevice-Safe)

    save_results-Safe : (items : List ScanItem) → Safe env H (save_results env id items)
    unfolding save_results
    save_results-Safe items = search (base_rules, save_item-Safe) depth 12

    after_scan-Safe : (st : Option ScanState) → Safe env H (after_scan env id st)
    unfolding after_scan
    after_scan-Safe none = save_results-Safe []
    after_scan-Safe (some st) = search (base_rules, mark_done-Safe, save_results-Safe)

    run_scan-Safe :
        (cidr : String) (group : Option String) (user password : String)
        → Safe env H (run_scan env id cidr group user password)
    unfolding run_scan
    run_scan-Safe cidr group user password =
        search (base_rules, scan_worker-Safe, get_scan-Safe, after_scan-Safe, mark_done-Safe) depth
          12

    pub run_scan_bg-Safe :
        (cidr : String) (group : Option String) (user password : String)
        → Safe env H (run_scan_bg env id cidr group user password)
    unfolding run_scan_bg
    run_scan_bg-Safe cidr group user password = search (base_rules, run_scan-Safe)

  choose_cidr-Safe : (cidr : Option String) → Safe env H (choose_cidr env cidr)
  unfolding choose_cidr
  choose_cidr-Safe none = guess_ipv4_cidr-Safe
  choose_cidr-Safe (some cidr) = search (base_rules, guess_ipv4_cidr-Safe)

  accept_scan-Safe :
      (cidr : String) (group : Option String) (user password : String)
      → Safe env H (accept_scan env cidr group user password)
  unfolding accept_scan
  accept_scan-Safe cidr group user password = search base_rules depth 12

  submit_scan-Safe :
      (cidr group : Option String) (user password : String)
      → Safe env H (submit_scan env cidr group user password)
  unfolding submit_scan
  submit_scan-Safe cidr group user password =
      search (base_rules, choose_cidr-Safe, accept_scan-Safe)

  pub scanstart-Safe :
      (cidr group : Option String) (user password : String)
      → Safe env H (scanstart env cidr group user password)
  unfolding scanstart
  scanstart-Safe cidr group user password = submit_scan-Safe cidr group _ _

  pub scanstatus-Safe : (id : String) → Safe env H (scanstatus env id)
  unfolding scanstatus
  scanstatus-Safe id = search (base_rules, cleanup_old_scans-Safe) depth 10
