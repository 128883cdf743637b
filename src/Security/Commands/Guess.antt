-- ===== src/Security/Commands/Guess.antt =====
-- What `guess_ipv4_cidr` returns.
use lvyou_smsweb.World.{Env, Exec, Network, pure}
use lvyou_smsweb.World.Results.{
  Gives, Yields, Gives-pure, Yields-bind, Yields-try, Gives-bind, Gives-if, Gives-or_raise,
}
use lvyou_smsweb.Prelude.{
  String, Option, Each, ◌≤◌, List, ◌≡◌, none, some, ◌∷◌, refl, split_words, [], strip,
}
use lvyou_smsweb.Security.Commands.{
  from_cidr, from_route, from_line, from_lines, guess_ipv4_cidr, or_addresses, or_default,
}
use lvyou_smsweb.Security.Address.{ip_network, show_network}
use lvyou_smsweb.Security.Address.Networks.{IsNetwork, ip_network-IsNetwork}
use lvyou_smsweb.Security.Address.Printed.{ip_network-show_network}

-- The text of an IPv4 network.
abbrev pub IsCidr : Env → String → Type 0
IsCidr env s = (net : Network) × (ip_network env s ≡ some net)

module _ (env : Env) (mask-bound : (s : String) → Each (λ p. p ≤ 32) (env.parse_mask s)) where
  abbrev Cidr? : Option String → Type 0
  Cidr? found = Each (IsCidr env) found

  from_cidr-Gives : (cidr : Option String) → Gives Cidr? (from_cidr env cidr)
  unfolding from_cidr
  from_cidr-Gives none = Gives-pure Cidr? none tt
  from_cidr-Gives (some cidr) =
      Gives-bind IsNetwork Cidr? _ _
        (Gives-or_raise IsNetwork (ip_network env cidr) _
          (ip_network-IsNetwork env mask-bound cidr))
        (λ net valid.
          Gives-pure Cidr? (some (show_network net)) (net, ip_network-show_network env net valid))

  from_route-Gives : (iface : Option String) → Gives Cidr? (from_route env iface)
  unfolding from_route
  from_route-Gives none = Gives-pure Cidr? none tt
  from_route-Gives (some iface) =
      Gives-bind (λ _. Unit {0}) Cidr? _ _ (λ _ _ _. tt) (λ text _. from_cidr-Gives _)

  from_line-Gives :
      (parts : List String) (rest : Exec (Option String))
      → Gives Cidr? rest
      → Gives Cidr? (from_line env parts rest)
  from_line-Gives (n ∷ iface ∷ family ∷ cidr ∷ more) rest h =
      Gives-if Cidr? _ rest _ h (Gives-if Cidr? _ rest _ h (from_cidr-Gives (some cidr)))
  from_line-Gives [] rest h = h
  from_line-Gives (n ∷ []) rest h = h
  from_line-Gives (n ∷ iface ∷ []) rest h = h
  from_line-Gives (n ∷ iface ∷ family ∷ []) rest h = h

  from_lines-Gives : (lines : List String) → Gives Cidr? (from_lines env lines)
  unfolding from_lines
  from_lines-Gives [] = Gives-pure Cidr? none tt
  from_lines-Gives (line ∷ lines) =
      from_line-Gives (split_words (strip line)) (from_lines env lines) (from_lines-Gives lines)

  default-IsCidr : IsCidr env "192.168.1.0/24"
  unfolding ip_network
  default-IsCidr = (record { address = 3232235776; prefixlen = 24 }, refl)

  or_default-Yields :
      (found : Option String) → Cidr? found → Yields (IsCidr env) (or_default env found)
  unfolding pure
  or_default-Yields none h w = ("192.168.1.0/24", (refl, default-IsCidr))
  or_default-Yields (some cidr) h w = (cidr, (refl, h))

  or_addresses-Yields :
      (found : Option String) → Cidr? found → Yields (IsCidr env) (or_addresses env found)
  unfolding pure
  or_addresses-Yields (some cidr) h = λ w. (cidr, (refl, h))
  or_addresses-Yields none h =
      Yields-bind Cidr? (IsCidr env) _ _
        (Yields-try Cidr? _ none tt
          (Gives-bind (λ _. Unit {0}) Cidr? _ _ (λ _ _ _. tt) (λ text _. from_lines-Gives _)))
        or_default-Yields

  -- Whatever the commands answer, the text of a network is returned.
  pub guess_ipv4_cidr-IsCidr : Yields (IsCidr env) (guess_ipv4_cidr env)
  unfolding guess_ipv4_cidr
  guess_ipv4_cidr-IsCidr =
      Yields-bind Cidr? (IsCidr env) _ _
        (Yields-try Cidr? _ none tt
          (Gives-bind (λ _. Unit {0}) Cidr? _ _ (λ _ _ _. tt) (λ text _. from_route-Gives _)))
        or_addresses-Yields
