-- ===== src/Security/Commands/Kept.antt =====
-- What the questions to the system leave as it is.
use lvyou_smsweb.World.{Env, Exec, World, ask, Network, time}
use lvyou_smsweb.World.Preserves.{
  Preserves, preserves_rules, Preserves-bind, Preserves-pure, Preserves-traverse-All,
}
use lvyou_smsweb.Prelude.{
  String, ℕ, Option, List, some, All, ◌∷◌, map, split_words, strip, none, [], ◌+◌,
}
use lvyou_smsweb.Security.Commands.{
  run_cmd, from_cidr, from_route, from_line, from_lines, get_arp_table, guess_ipv4_cidr,
  or_addresses, or_default,
}
use lvyou_smsweb.Security.Contact.{prewarm_neighbors, tcp_port_open, ping, contact}
use lvyou_smsweb.Security.Address.{show_v4, first_hosts}

-- `P` is kept by every question.
module _ (env : Env) (P : World → Type 0)
    (ask-Kept : (A : Type 0) (f : ℕ → A) → Preserves P (ask f)) where
  run_cmd-Kept : (output : ℕ → Option String) → Preserves P (run_cmd output)
  unfolding run_cmd
  run_cmd-Kept output = search (preserves_rules, ask-Kept)

  from_cidr-Kept : (cidr : Option String) → Preserves P (from_cidr env cidr)
  unfolding from_cidr
  from_cidr-Kept none = search preserves_rules
  from_cidr-Kept (some cidr) = search preserves_rules

  from_route-Kept : (iface : Option String) → Preserves P (from_route env iface)
  unfolding from_route
  from_route-Kept none = search preserves_rules
  from_route-Kept (some iface) = search (preserves_rules, run_cmd-Kept, from_cidr-Kept)

  from_line-Kept :
      (parts : List String) (rest : Exec (Option String))
      → Preserves P rest
      → Preserves P (from_line env parts rest)
  from_line-Kept (n ∷ iface ∷ family ∷ cidr ∷ more) rest h =
      search (preserves_rules, h, from_cidr-Kept)
  from_line-Kept [] rest h = h
  from_line-Kept (n ∷ []) rest h = h
  from_line-Kept (n ∷ iface ∷ []) rest h = h
  from_line-Kept (n ∷ iface ∷ family ∷ []) rest h = h

  from_lines-Kept : (lines : List String) → Preserves P (from_lines env lines)
  unfolding from_lines
  from_lines-Kept [] = search preserves_rules
  from_lines-Kept (line ∷ lines) =
      from_line-Kept (split_words (strip line)) (from_lines env lines) (from_lines-Kept lines)

  or_default-Kept : (found : Option String) → Preserves P (or_default env found)
  or_default-Kept none = search preserves_rules
  or_default-Kept (some cidr) = search preserves_rules

  or_addresses-Kept : (found : Option String) → Preserves P (or_addresses env found)
  or_addresses-Kept (some cidr) = search preserves_rules
  or_addresses-Kept none =
      search (preserves_rules, run_cmd-Kept, from_lines-Kept, or_default-Kept) depth 8

  pub guess_ipv4_cidr-Kept : Preserves P (guess_ipv4_cidr env)
  unfolding guess_ipv4_cidr
  guess_ipv4_cidr-Kept =
      search (preserves_rules, run_cmd-Kept, from_route-Kept, or_addresses-Kept) depth 8

  pub get_arp_table-Kept : Preserves P (get_arp_table env)
  unfolding get_arp_table
  get_arp_table-Kept = search (preserves_rules, ask-Kept)

  -- The addresses of which `P` allows a contact.
  module _ (K : String → Type 0)
      (contact-Kept : (ip : String) → K ip → Preserves P (contact ip)) where
    ping-Kept : (deadline : ℕ) (ip : String) → K ip → Preserves P (ping env deadline ip)
    unfolding ping time
    ping-Kept deadline ip k = search (preserves_rules, ask-Kept, contact-Kept)

    pub prewarm_neighbors-Kept :
        (net : Network)
        → All K (map show_v4 (first_hosts env.config.cidr_fallback_limit net))
        → Preserves P (prewarm_neighbors env net)
    unfolding prewarm_neighbors time
    prewarm_neighbors-Kept net h = Preserves-bind _ _ (ask-Kept ℕ env.micros) (λ start.
        Preserves-bind _ _ (Preserves-traverse-All K (ping env (start + 8000000)) _ (ping-Kept _) h)
          (λ _. Preserves-pure tt))

    pub tcp_port_open-Kept : (ip : String) → K ip → Preserves P (tcp_port_open env ip)
    unfolding tcp_port_open
    tcp_port_open-Kept ip k = search (preserves_rules, ask-Kept, contact-Kept)
