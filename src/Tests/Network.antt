-- ===== src/Tests/Network.antt =====
-- The output of the system's commands, and the addresses of a scan.
use lvyou_smsweb.World.{Env, ok, ◌>>=◌, Network, ask, try_except, pure, or_raise, raise}
use lvyou_smsweb.Prelude.{
  String, Each, some, ◌≡◌, ◌≤◌, none, refl, arith, split_at, split_words, strip, split_lines,
  show_ℕ, ◌∷◌, [], inr,
}
use lvyou_smsweb.Tests.Sample.{env, world}
use lvyou_smsweb.Security.Commands.{guess_ipv4_cidr, get_arp_table}
use lvyou_smsweb.Scan.Routes.{ScanTask, scanstart}
use lvyou_smsweb.Security.Address.{ip_network, show_network}
use lvyou_smsweb.Scan.Reach.{Reached, scan_worker-Reached}
use lvyou_smsweb.Scan.Worker.{scan_worker}
use lvyou_smsweb.Security.Address.Printed.{ip_network-show_network}
use lvyou_smsweb.Scan.Started.{HasCidr, scanstart-HasCidr}
use lvyou_smsweb.Security.Address.Networks.{IsNetwork}

abbrev wired : Env
wired = record env {
  route_show = λ n. some "default via 10.1.0.1 dev eth0 proto dhcp\n";
  dev_show =
      λ n dev. some "2: eth0: <UP>\n    inet 10.1.2.3/16 brd 10.1.255.255 scope global eth0\n";
  proc_arp = λ n.
      some
        "IP address HW type Flags HW address Mask Device\n10.1.0.7 0x1 0x2 aa:bb:cc:00:11:22 * eth0\n10.1.0.8 0x1 0x0 00:00:00:00:00:00 * eth0\n";
  neigh_show = λ n.
      some
        "10.1.0.9 dev eth0 lladdr aa:bb:cc:00:11:33 REACHABLE\n10.1.0.10 dev eth0 FAILED\n10.1.0.7 dev eth0 lladdr aa:bb:cc:00:11:44 STALE\n";
}

guessed : (guess_ipv4_cidr wired world).0 ≡ ok "10.1.0.0/16"
unfolding guess_ipv4_cidr ◌>>=◌ try_except ask pure or_raise strip split_lines ip_network show_ℕ
guessed = refl

-- A failing command leads to the second one, and then to the default.
abbrev listed : Env
listed = record env {
  addr_show = λ n.
      some "1: lo inet 127.0.0.1/8 scope host lo\n3: wlan0 inet 192.168.7.9/24 brd 192.168.7.255\n";
}

guessed_second : (guess_ipv4_cidr listed world).0 ≡ ok "192.168.7.0/24"
unfolding guess_ipv4_cidr ◌>>=◌ try_except ask pure or_raise raise strip split_lines split_words
    ip_network show_ℕ
guessed_second = refl

guessed_default : (guess_ipv4_cidr env world).0 ≡ ok "192.168.1.0/24"
unfolding guess_ipv4_cidr ◌>>=◌ try_except ask pure or_raise raise strip
guessed_default = refl

neighbours :
    (get_arp_table wired world).0
    ≡ ok (("10.1.0.7", "aa:bb:cc:00:11:44") ∷ ("10.1.0.9", "aa:bb:cc:00:11:33") ∷ [])
unfolding get_arp_table ◌>>=◌ ask pure split_at split_words split_lines strip
neighbours = refl

abbrev net : Network
net = record { address = 3232235776; prefixlen = 30 }

mask_bound : (s : String) → Each (λ p. p ≤ 32) (env.parse_mask s)
mask_bound s = tt

net-IsNetwork : IsNetwork net
net-IsNetwork = record { aligned = refl; fits = omega arith; short = omega arith }

ip_network-show_network_example : ip_network env (show_network net) ≡ some net
ip_network-show_network_example = ip_network-show_network env net net-IsNetwork

cidr_net : ip_network env "192.168.1.0/30" ≡ some net
unfolding ip_network
cidr_net = refl

scan_worker-Reached_example :
    Reached env net (scan_worker env "5ca0" "192.168.1.0/30" none "admin" "admin" world).1
scan_worker-Reached_example =
    scan_worker-Reached env "5ca0" "192.168.1.0/30" net none "admin" "admin" world mask_bound
      cidr_net (record { contacts = tt; sent = tt })

scanstart-HasCidr_example :
    (task : ScanTask) × (((scanstart env (some "") none "" "" world).0 ≡ ok task)
      × HasCidr env task)
scanstart-HasCidr_example = scanstart-HasCidr env (some "") none "" "" world (inr refl) mask_bound
