-- ===== src/Scan/Worker.antt =====
-- `_scan_worker` and `_run_scan_bg` of backend/routes/scan.py.
pub mod Finish
use lvyou_smsweb.Prelude.{
  List, Option, String, join, ◌∷◌, some, if◌then◌else◌, Bool, map, [], none, ◌==◌, is_some, concat,
  text_comparable, length, take, false, true, ◌+◌, show_ℕ,
}
use lvyou_smsweb.DeviceTable.{DeviceDict}
use lvyou_smsweb.World.{
  Env, Exc, Exec, ScanState, ◌>>◌, try_except, ◌>>=◌, http, ask, Network, or_raise, traverse, other,
  pure, exc_text, raise,
}
use lvyou_smsweb.Devices.Upsert.{Saved, saved, upsertdevice, save_error}
use lvyou_smsweb.World.{ScanItem}
use lvyou_smsweb.Scan.Registry.{
  on_scan, mark_done, get_scan, set_status, set_results, set_progress, set_total, set_scanned,
}
use lvyou_smsweb.Security.Address.{ip_network}
use lvyou_smsweb.Scan.Hosts.{ip_list}
use lvyou_smsweb.Client.Probe.{istargetdevice}
use lvyou_smsweb.Security.Contact.{prewarm_neighbors, tcp_port_open}
use lvyou_smsweb.Security.Commands.{get_arp_table}

-- `arptable.get(ip, "")`
abbrev pub mac_of : List (String × String) → String → String
mac_of [] ip = ""
mac_of ((key, mac) ∷ rest) ip = if key == ip then mac else mac_of rest ip

abbrev pub keep_some : {A : Type 0} → List (Option A) → List A
keep_some [] = []
keep_some (none ∷ xs) = keep_some xs
keep_some (some x ∷ xs) = x ∷ keep_some xs

abbrev pub item_of : DeviceDict → ScanItem
item_of d = record { ip = d.ip; mac = d.mac; dev_id = d.dev_id; grp = some d.grp }

abbrev pub saved_items : List Saved → List ScanItem
saved_items [] = []
saved_items (saved d ∷ rs) = item_of d ∷ saved_items rs
saved_items (save_error ip e ∷ rs) = saved_items rs

abbrev pub failures : List Saved → List (String × String)
failures [] = []
failures (saved d ∷ rs) = failures rs
failures (save_error ip e ∷ rs) = (ip, e) ∷ failures rs

-- `"；".join(…)` of the first three failures.
abbrev pub failed_text : List (String × String) → String
failed_text fs = join "；" (map (λ f. concat (f.0 ∷ ": " ∷ f.1 ∷ [])) (take 3 fs))

module _ (env : Env) where
  -- Whether the port of an address is open; the address where it is.
  unfoldable pub probe_port : String → Exec (Option String)
  unfolding tcp_port_open
  probe_port ip = do answers ← tcp_port_open env ip; pure (if answers then some ip else none)

  -- An HTTPException of the probe skips the address.
  abbrev pub skip_http : Exc → Exec (Bool × Option String)
  skip_http (http status detail) = pure (false, none)
  skip_http (other text) = raise (other text)

  unfoldable pub probe_board :
      List (String × String) → Option String → String → String → String → Exec (Option ScanItem)
  probe_board arptable group user password ip = do
    probe ← try_except (istargetdevice env ip user password) skip_http
    pure (
        if probe.0
        then some (record { ip = ip; mac = mac_of arptable ip; dev_id = ""; grp = group })
        else none)

  module _ (id : String) where
    unfoldable pub scan_network : Network → Option String → String → String → Exec (Unit {0})
    unfolding on_scan ip_list probe_port probe_board prewarm_neighbors get_arp_table
    scan_network net group user password = do
      on_scan id (set_progress "预热邻居...")
      prewarm_neighbors env net
      arptable ← get_arp_table env
      let ips = ip_list env (map (λ e. e.0) arptable) net
      on_scan id (set_total (length ips))
      on_scan id (set_progress (concat ("TCP 探测 " ∷ show_ℕ (length ips) ∷ " 个 IP..." ∷ [])))
      opened ← traverse probe_port ips
      let open80 = keep_some opened
      on_scan id (set_scanned (length open80))
      on_scan id (set_progress (concat ("验证 " ∷ show_ℕ (length open80) ∷ " 台设备..." ∷ [])))
      probed ← traverse (probe_board arptable group user password) open80
      let found = keep_some probed
      on_scan id (set_results found)
      on_scan id (set_progress (concat ("完成，发现 " ∷ show_ℕ (length found) ∷ " 台" ∷ [])))

    unfoldable pub scan_worker : String → Option String → String → String → Exec (Unit {0})
    unfolding on_scan scan_network ip_network
    scan_worker cidr group user password = do
      good ←
          try_except
            (do
              on_scan id (set_status "scanning" (some "解析网段..."))
              net ← or_raise (ip_network env cidr) (other "does not appear to be an IPv4 network")
              scan_network net group user password
              pure true)
            (λ e. do
              on_scan id (set_status "error" (some (concat ("扫描出错: " ∷ exc_text e ∷ []))))
              pure false)
      if good then on_scan id (set_status "done" none) else pure tt

    -- A board whose row cannot be written is a failure of that board alone.
    unfoldable pub save_item : ScanItem → Exec Saved
    save_item item =
        try_except (upsertdevice env item.ip item.mac "admin" "admin" item.grp)
          (λ e. pure (save_error item.ip (exc_text e)))

    abbrev pub outcome : List ScanItem → List (String × String) → ScanState → ScanState
    outcome good [] =
        set_status "done" (some (concat ("完成，发现 " ∷ show_ℕ (length good) ∷ " 台设备" ∷ [])))
    outcome good (f ∷ fs) = set_status "error" (
        some (
          concat (
            "发现 "
            ∷ show_ℕ (length good + length (f ∷ fs))
            ∷ " 台，成功添加 "
            ∷ show_ℕ (length good)
            ∷ " 台，失败 "
            ∷ show_ℕ (length (f ∷ fs))
            ∷ " 台："
            ∷ failed_text (f ∷ fs)
            ∷ [])))

    unfoldable pub save_results : List ScanItem → Exec (Unit {0})
    unfolding on_scan save_item
    save_results items = do
      on_scan id (set_status "saving" (some "保存设备到数据库..."))
      rs ← traverse save_item items
      on_scan id (set_results (saved_items rs))
      on_scan id (outcome (saved_items rs) (failures rs))

    -- What follows the scan, by the state that it left.
    unfoldable pub after_scan : Option ScanState → Exec (Unit {0})
    unfolding save_results mark_done
    after_scan none = save_results []
    after_scan (some st) =
        if st.status == "error" then mark_done env id else save_results st.results

    -- `finally: state.mark_done()`; whatever is raised before becomes the state "error".
    unfoldable pub run_scan : String → Option String → String → String → Exec (Unit {0})
    unfolding scan_worker after_scan mark_done on_scan
    run_scan cidr group user password = do
      try_except (do scan_worker cidr group user password; st ← get_scan id; after_scan st)
          (λ e. on_scan id (set_status "error" (some (concat ("保存失败: " ∷ exc_text e ∷ [])))))
      mark_done env id

    unfoldable pub run_scan_bg : String → Option String → String → String → Exec (Unit {0})
    unfolding run_scan get_scan
    run_scan_bg cidr group user password = do
      st ← get_scan id
      if is_some st then run_scan cidr group user password else pure tt
