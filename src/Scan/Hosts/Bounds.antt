-- ===== src/Scan/Hosts/Bounds.antt =====
-- How many addresses a scan looks at, and whether they are different.
use lvyou_smsweb.Prelude.{
  String, List, Bool, ◌∷◌, if◌then◌else◌, ℕ, All, ◌==◌, arith, [], length, Bool-cases, ◌<◌, inl,
  ◌≡◌, true, ◌≤◌, false, leb, ◌+◌, inr, text_comparable, suc,
}
use lvyou_smsweb.Scan.Hosts.{collect, ip_list, contains, candidates}
use lvyou_smsweb.World.{Env, Network}

abbrev pub Distinct : List String → Type 0
Distinct [] = Unit {0}
Distinct (x ∷ xs) = All (λ y. (x == y) ≡ false) xs × Distinct xs

abbrev pub Fresh : List String → List String → Type 0
Fresh seen xs = All (λ y. contains seen y ≡ false) xs

Fresh-tail : (ip : String) (seen xs : List String) → Fresh (ip ∷ seen) xs → Fresh seen xs
Fresh-tail ip seen [] h = tt
Fresh-tail ip seen (x ∷ xs) (h, k) = (ground arith, Fresh-tail ip seen xs k)

Fresh-head :
    (ip : String) (seen xs : List String) → Fresh (ip ∷ seen) xs → All (λ y. (ip == y) ≡ false) xs
Fresh-head ip seen [] h = tt
Fresh-head ip seen (x ∷ xs) (h, k) = (ground arith, Fresh-head ip seen xs k)

abbrev Good : List String → List String → Type 0
Good seen xs = Distinct xs × Fresh seen xs

cut-Good : (b : Bool) (seen xs : List String) → Good seen xs → Good seen (if b then [] else xs)
cut-Good true seen xs h = (tt, tt)
cut-Good false seen xs h = h

collect-Good : (limit : ℕ) (seen ips : List String) → Good seen (collect limit seen ips)
unfolding collect
collect-Good limit seen [] = (tt, tt)
collect-Good limit seen (ip ∷ ips) = elim (Bool-cases (contains seen ip)) [
  | inl old ↦ rw (old) (cut-Good (leb limit (length seen)) seen _ (collect-Good limit seen ips))
  | inr new ↦
      let (d, f) =
        cut-Good (leb limit (suc (length seen))) (ip ∷ seen) _
          (collect-Good limit (ip ∷ seen) ips) in
      rw (new) ((Fresh-head ip seen _ f, d), (new, Fresh-tail ip seen _ f))
]

collect-bound :
    (limit : ℕ) (seen ips : List String)
    → length seen < limit
    → length seen + length (collect limit seen ips) ≤ limit
unfolding collect
collect-bound limit seen [] h = ground arith
collect-bound limit seen (ip ∷ ips) h =
    let a = collect-bound limit seen ips in
    let b = collect-bound limit (ip ∷ seen) ips in ground arith

-- A scan never looks at an address twice, and with a positive limit it looks at no more addresses
-- than that, however large the network and the table of neighbours are.
pub ip_list-Bounded :
    (env : Env) (neighbours : List String) (net : Network)
    → 0 < env.config.cidr_fallback_limit
    → Distinct (ip_list env neighbours net)
      × (length (ip_list env neighbours net) ≤ env.config.cidr_fallback_limit)
unfolding ip_list
ip_list-Bounded env neighbours net h =
    let cs = candidates env neighbours net in
    let limit = env.config.cidr_fallback_limit in
    ((collect-Good limit [] cs).0, omega (arith, collect-bound limit [] cs h))
