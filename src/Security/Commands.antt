-- ===== src/Security/Commands.antt =====
-- `guess_ipv4_cidr` and `get_arp_table` of backend/security.py: what the backend reads in the
-- output of the system's commands, which the environment answers.
pub mod Kept
pub mod Guess
use lvyou_smsweb.World.{Env, Exec, pure, Network, ◌>>=◌, ask, try_except, or_raise, other}
use lvyou_smsweb.Prelude.{
  String, Option, if◌then◌else◌, ℕ, List, not, Bool, ◌==◌, concat, strip, some, split_words,
  is_digit, none, is_space, starts_with, is_empty, is_some, false, ◌&&◌, split_at, leb, drop,
  split_lines, get_elem?, show_ℕ, ◌||◌, length, starts_with_space, all_digits, text_comparable,
  digits_value, skip, text_length, lstrip, number_comparable,
}
use Prim.Native.String.{[], ◌∷◌}
use Prim.Native.Char.{code}
use lvyou_smsweb.Prelude.{[], ◌∷◌}
use lvyou_smsweb.Security.Address.{ip_network, show_v4, show_network}

-- `\S+` at the beginning of a text, and `\d+` with what follows it (an ASCII digit, as in the
-- output of `ip`).
abbrev lead_word : String → String
lead_word [] = []
lead_word (c ∷ s) = if is_space c then [] else c ∷ lead_word s

abbrev lead_digits : String → String
lead_digits [] = []
lead_digits (c ∷ s) = if is_digit c then c ∷ lead_digits s else []

abbrev after_digits : String → String
after_digits [] = []
after_digits (c ∷ s) = if is_digit c then after_digits s else c ∷ s

abbrev non_empty : String → Option String
non_empty [] = none
non_empty (c ∷ s) = some (c ∷ s)

-- `re.search`: what a pattern takes at the first position where it matches.
unfoldable search_text : (String → Option String) → String → Option String
search_text f [] = f []
search_text f (c ∷ s) = elim (f (c ∷ s)) [ some t ↦ some t | none ↦ search_text f s ]

-- The text behind a word and at least one space.
abbrev behind : String → String → Option String
behind word s =
    if starts_with s word && starts_with_space (skip (text_length word) s)
    then some (lstrip (skip (text_length word) s))
    else none

-- `dev\s+(\S+)`
abbrev match_dev : String → Option String
match_dev s = elim (behind "dev" s) [ none ↦ none | some t ↦ non_empty (lead_word t) ]

-- Numbers, each with the separator that follows it.
abbrev match_numbers : List String → String → Option String
match_numbers [] s = some ""
match_numbers (sep ∷ seps) s =
    if is_empty (lead_digits s) || not (starts_with (after_digits s) sep)
    then none
    else elim (match_numbers seps (skip (text_length sep) (after_digits s))) [
      | none ↦ none
      | some t ↦ some (concat (lead_digits s ∷ sep ∷ t ∷ []))
    ]

-- `inet\s+(\d+\.\d+\.\d+\.\d+/\d+)`
abbrev match_inet : String → Option String
match_inet s = elim (behind "inet" s) [
  | none ↦ none
  | some t ↦ match_numbers ("." ∷ "." ∷ "." ∷ "/" ∷ "" ∷ []) t
]

-- What a pattern takes in the first line that it matches.
abbrev first_match : (String → Option String) → List String → Option String
first_match f [] = none
first_match f (line ∷ lines) = elim (search_text f line) [
  | some t ↦ some t
  | none ↦ first_match f lines
]

-- `run_cmd`
unfoldable pub run_cmd : (ℕ → Option String) → Exec String
run_cmd output = do
  found ← ask output
  txt ← or_raise found (other "CalledProcessError")
  pure (strip txt)

module _ (env : Env) where
  -- `ip_network(cidr)` is an IPv6 network.
  abbrev is_v6_prefix : List String → Bool
  is_v6_prefix (a ∷ []) = is_some (env.parse_v6 a)
  is_v6_prefix (a ∷ p ∷ []) =
      is_some (env.parse_v6 a) && not (is_empty p) && all_digits p && leb (digits_value 0 p) 128
  is_v6_prefix _ = false

  abbrev parsed_network : String → Exec Network
  parsed_network cidr = or_raise (ip_network env cidr) (other "ValueError")

  -- The network of an address with its prefix.
  unfoldable pub from_cidr : Option String → Exec (Option String)
  from_cidr none = pure none
  from_cidr (some cidr) = do net ← parsed_network cidr; pure (some (show_network net))

  unfoldable pub from_route : Option String → Exec (Option String)
  unfolding from_cidr run_cmd search_text
  from_route none = pure none
  from_route (some iface) = do
    addr_text ← run_cmd (λ n. env.dev_show n iface)
    from_cidr (first_match match_inet (split_lines addr_text))

  -- The loop over the lines of `ip -o -4 addr show`; `rest` is what the next lines lead to.
  abbrev pub from_line : List String → Exec (Option String) → Exec (Option String)
  from_line (n ∷ iface ∷ family ∷ cidr ∷ more) rest =
      if iface == "lo"
      then rest
      else if is_v6_prefix (split_at b'/' cidr) && not (is_some (ip_network env cidr))
      then rest
      else from_cidr (some cidr)
  from_line _ rest = rest

  unfoldable pub from_lines : List String → Exec (Option String)
  unfolding from_cidr
  from_lines [] = pure none
  from_lines (line ∷ lines) = from_line (split_words (strip line)) (from_lines lines)

  abbrev pub or_default : Option String → Exec String
  or_default none = pure "192.168.1.0/24"
  or_default (some cidr) = pure cidr

  abbrev pub or_addresses : Option String → Exec String
  or_addresses (some cidr) = pure cidr
  or_addresses none = do
    found ←
        try_except (do txt ← run_cmd env.addr_show; from_lines (split_lines txt)) (λ _. pure none)
    or_default found

  unfoldable pub guess_ipv4_cidr : Exec String
  unfolding run_cmd from_route from_lines search_text
  guess_ipv4_cidr = do
    found ←
        try_except
          (do
            route_text ← run_cmd env.route_show
            from_route (first_match match_dev (split_lines route_text)))
          (λ _. pure none)
    or_addresses found

-- `out[ip] = mac`
abbrev put : String → String → List (String × String) → List (String × String)
put ip mac [] = (ip, mac) ∷ []
put ip mac ((key, old) ∷ rest) =
    let more = put ip mac rest in if key == ip then (ip, mac) ∷ rest else (key, old) ∷ more

abbrev mentions : ℕ → String → Bool
mentions sep [] = false
mentions sep (c ∷ s) = code c == sep || mentions sep s

module _ (env : Env) where
  -- An entry that has a MAC address.
  abbrev note_mac : String → String → List (String × String) → List (String × String)
  note_mac ip mac out =
      if not (is_empty mac) && not (mac == "00:00:00:00:00:00") && mentions b':' mac
      then put ip mac out
      else out

  -- One line of /proc/net/arp.
  abbrev arp_line : List String → List (String × String) → List (String × String)
  arp_line (ip ∷ hw_type ∷ flags ∷ mac ∷ rest) out = note_mac (strip ip) (env.upper (strip mac)) out
  arp_line _ out = out

  unfoldable arp_lines : List String → List (String × String) → List (String × String)
  arp_lines [] out = out
  arp_lines (line ∷ lines) out = arp_lines lines (arp_line (split_words line) out)

  -- `parts[parts.index("lladdr") + 1]`: none where the word is missing, and the word that follows
  -- it, where there is one.
  abbrev after_lladdr : List String → Option (Option String)
  after_lladdr [] = none
  after_lladdr (word ∷ rest) =
      let more = after_lladdr rest in if word == "lladdr" then some (get_elem? rest 0) else more

  -- A line where no word follows raises, and ends the loop.
  abbrev neigh_line :
      List String
      → Option (Option String)
      → List (String × String)
      → Option (List (String × String))
  neigh_line (ip ∷ rest) (some (some mac)) out =
      some (note_mac (strip ip) (env.upper (strip mac)) out)
  neigh_line parts (some none) out = none
  neigh_line parts _ out = some out

  unfoldable neigh_lines : List String → List (String × String) → List (String × String)
  neigh_lines [] out = out
  neigh_lines (line ∷ lines) out =
      let parts = split_words line in
      let found = if leb 5 (length parts) then after_lladdr parts else none in
      elim (neigh_line parts found out) [ none ↦ out | some out' ↦ neigh_lines lines out' ]

  abbrev read_arp : Option String → List (String × String)
  read_arp none = []
  read_arp (some txt) = arp_lines (drop 1 (split_at 10 txt)) []

  abbrev read_neigh : Option String → List (String × String) → List (String × String)
  read_neigh none out = out
  read_neigh (some txt) out = neigh_lines (split_lines txt) out

  unfoldable pub get_arp_table : Exec (List (String × String))
  unfolding arp_lines neigh_lines
  get_arp_table = do
    arp ← ask env.proc_arp
    neigh ← ask env.neigh_show
    pure (read_neigh neigh (read_arp arp))
