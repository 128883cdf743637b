-- ===== src/Tests/Backend.antt =====
-- A history of the backend, and the parts that it goes through.
use lvyou_smsweb.World.{
  Network, World, ScanState, pure, ok, ask, ◌>>=◌, audit, nowts, transact, try_except,
}
use lvyou_smsweb.Prelude.{
  List, strip, get_elem?, ℕ, split_at, ◌∷◌, some, ◌≡◌, none, [], true, ◌↔◌, ◌≤◌, refl, length, ◌||◌,
  arith, ◌⊎◌, String, is_empty,
}
use lvyou_smsweb.RateLimit.{RateLimiter, check_only, rate_count, reset, rate_reset}
use lvyou_smsweb.Security.Allow.{is_internal}
use lvyou_smsweb.DeviceTable.{ConnInfo}
use lvyou_smsweb.Devices.Validate.{validate_phone, phone_re}
use lvyou_smsweb.Invariant.{Confined, Owned}
use lvyou_smsweb.Auth.Login.{try_login, gate_login, LoginReply, accept_login, user_key}
use lvyou_smsweb.System.{
  Limiters, Event, serve_all, on_scan_task, on_request, list_groups, on_sweep, serve,
  delete_devices,
}
use lvyou_smsweb.Boards.Tasks.Writes.{OnlyWritable, only_checked_is_written}
use lvyou_smsweb.Scan.Hosts.Bounds.{Distinct, ip_list-Bounded}
use lvyou_smsweb.Auth.Http.{
  Request, check_login_credentials, client_ip_from_request, set_auth_cookies, compare_digest,
  compare_value,
}
use lvyou_smsweb.Scan.Registry.{lookup_scan, new_state, to_dict}
use lvyou_smsweb.Tests.Sample.{env, world}
use lvyou_smsweb.Scan.Hosts.{ip_list}
use lvyou_smsweb.Devices.Listing.{page_of, pages_of}
use lvyou_smsweb.Tests.Access.{request}
use lvyou_smsweb.Scan.Routes.{scanstatus, cleanup_round}
use lvyou_smsweb.Security.Address.{v4}
use lvyou_smsweb.Boards.Tasks.{write_preview, config_preview}
use lvyou_smsweb.System.Confined.{serve_all-Confined, serve_all-Owned}
use lvyou_smsweb.Auth.Http.Proxy.{spoofed_prefix_ignored}
use lvyou_smsweb.Devices.Validate.Phone.{IsPhone, validate_phone-IsPhone}
use lvyou_smsweb.Security.Allow.Layers.{is_rfc1918, is_other_private, is_internal_v4_iff}
use lvyou_smsweb.Scan.Registry.Kept.{running_is_reported}
use lvyou_smsweb.Devices.Listing.Pages.{page_of-covers}
use lvyou_smsweb.Sessions.{issue_token, insert_token, cleanup_expired_tokens}
use lvyou_smsweb.Auth.Login.Sound.{IsBelow, login_sound}
use lvyou_smsweb.Auth.Gate.Access.{IsAdmitted}
use lvyou_smsweb.System.Guarded.{serve-IsAdmitted}
use lvyou_smsweb.Sessions.Unique.{has_unique_tokens}

abbrev limiter : RateLimiter
limiter = record { scope = "any"; max_calls = 5; period = 60000000 }

abbrev limiters : Limiters
limiters = record {
  login_ip = limiter;
  login_user = limiter;
  sms = limiter;
  dial = limiter;
  ota = limiter;
}

abbrev running : ScanState
running = record new_state { status = "scanning"; cidr = "192.168.1.0/30" }

abbrev scanning : World
scanning = record world { scans = ("5ca0", running) ∷ [] }

abbrev history : List Event
history =
    on_scan_task (record {
      scan_id = "5ca0";
      cidr = "192.168.1.0/30";
      group = none;
      user = "admin";
      password = "admin";
    })
    ∷ on_request request list_groups
    ∷ on_sweep 600
    ∷ []

serve_all-Confined_example : Confined env (serve_all env limiters history scanning).1.sent
serve_all-Confined_example = serve_all-Confined env limiters history scanning tt

running_is_reported_example :
    ((scanstatus env "5ca0" scanning).0 ≡ ok (to_dict running))
    × (((other : String)
          → lookup_scan "5ca0" (scanstatus env other scanning).1.scans ≡ some running)
        × ((max_period : ℕ)
            → lookup_scan "5ca0" (cleanup_round env max_period scanning).1.scans ≡ some running))
unfolding lookup_scan
running_is_reported_example = running_is_reported env "5ca0" scanning running refl refl

abbrev info : ConnInfo
info = record { id = 1; ip = "192.168.1.7"; alias = ""; grp = "auto"; user = "admin"; pw = "admin" }

only_checked_is_written_example :
    OnlyWritable env "{}" "{\"wps\": 1}"
      (write_preview env info "config_write" "" (config_preview 1 "{}" "{\"wps\": 1}") world).1.sent
only_checked_is_written_example =
    only_checked_is_written env info "config_write" "" "{}" "{\"wps\": 1}" 1 world tt

abbrev proxied : Request
proxied = record request { x_forwarded_for = "6.6.6.6, 192.168.1.50" }

spoofed_prefix_ignored_example : client_ip_from_request env proxied ≡ "192.168.1.50"
unfolding strip split_at
spoofed_prefix_ignored_example =
    spoofed_prefix_ignored env proxied ("6.6.6.6" ∷ []) "192.168.1.50" [] refl refl

abbrev lan : Network
lan = record { address = 3232235776; prefixlen = 24 }

ip_list-Bounded_example :
    Distinct (ip_list env ("192.168.1.7" ∷ []) lan)
    × (length (ip_list env ("192.168.1.7" ∷ []) lan) ≤ 1024)
ip_list-Bounded_example = ip_list-Bounded env ("192.168.1.7" ∷ []) lan (omega arith)

abbrev entries : List ℕ
entries = 7 ∷ 8 ∷ 9 ∷ []

page_of-covers_example :
    ((get_elem? (page_of 2 2 entries) 0 ≡ some 9) × (2 ≤ pages_of 3 2))
    × (length (page_of 2 2 entries) ≤ 2)
page_of-covers_example = page_of-covers 2 2 entries (omega arith) (omega arith)

validate_phone-IsPhone_example :
    (("+8613800" ≡ strip " +8613800\n") × (world ≡ world)) × IsPhone "+8613800"
unfolding validate_phone strip pure phone_re
validate_phone-IsPhone_example = validate_phone-IsPhone " +8613800\n" "+8613800" world world refl

abbrev session : World × LoginReply
session = (
  (try_login env limiter limiter "admin" (some "s3cret") "192.168.1.50" world).1,
  record { username = "admin"; expires_in = 7200; cookies = set_auth_cookies env "t0ken" },
)

login_sound_example :
    (("admin" ≡ env.config.ui_user) × (some "s3cret" ≡ some env.config.ui_pass))
    × (IsBelow env limiter "192.168.1.50" world
        × ((is_empty (user_key env limiter limiter "admin") ≡ true)
            ⊎ IsBelow env limiter
                (user_key env limiter limiter "admin")
                (check_only env limiter "192.168.1.50" world).1))
unfolding try_login gate_login check_login_credentials accept_login compare_digest compare_value
    check_only rate_count reset rate_reset issue_token insert_token cleanup_expired_tokens audit
    nowts transact ask ◌>>=◌ try_except pure
login_sound_example =
    login_sound env limiter limiter "admin" (some "s3cret") "192.168.1.50" world session.1 refl

abbrev board : ℕ
board = 3232235783

is_internal_v4_iff_example :
    (is_internal env (v4 board) ≡ true) ↔ ((is_rfc1918 board || is_other_private board) ≡ true)
is_internal_v4_iff_example = is_internal_v4_iff env board

abbrev stranger : Request
stranger = record request {
  path = "/api/devices/batch/delete";
  method = "POST";
  authorization = "";
}

serve-IsAdmitted_example :
    (((serve env limiters (on_request stranger (delete_devices (1 ∷ []))) world).1.sent ≡ [])
      × ((serve env limiters (on_request stranger (delete_devices (1 ∷ []))) world).1.db.devices
          ≡ []))
    ⊎ IsAdmitted env stranger [] 1
serve-IsAdmitted_example =
    serve-IsAdmitted env limiters stranger (delete_devices (1 ∷ [])) world refl

serve_all-Owned_example : Owned env (serve_all env limiters history scanning).1.db
unfolding has_unique_tokens
serve_all-Owned_example = serve_all-Owned env limiters history scanning (tt, refl)
