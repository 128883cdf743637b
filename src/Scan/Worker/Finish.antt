-- ===== src/Scan/Worker/Finish.antt =====
-- How the background task `_run_scan_bg` ends.
use lvyou_smsweb.Prelude.{
  [], ◌∷◌, String, ℕ, ◌≡◌, Option, some, refl, arith, Bool-cases, ap, ◌==◌, sym, inl, inr,
  text_comparable,
}
use lvyou_smsweb.Scan.Registry.{lookup_scan, change_scan, Registry, mark_done, on_scan}
use lvyou_smsweb.World.{
  Env, Exc, Exec, ScanState, try_except, Result, put_scans, World, ◌>>=◌, ok, time, ask, caught,
  after, err,
}
use lvyou_smsweb.Scan.Worker.{run_scan}

change_scan-lookup :
    (id : String) (f : ScanState → ScanState) (reg : Registry) (st : ScanState)
    → lookup_scan id (change_scan id f reg) ≡ some st
    → (old : ScanState) × (f old ≡ st)
unfolding lookup_scan change_scan
change_scan-lookup id f [] st h = ground arith
change_scan-lookup id f ((key, old) ∷ rest) st h = elim (Bool-cases (key == id)) [
  | inl same ↦
      let e : some (f old) ≡ some st = rw (same) at h in
      let k : f old ≡ st = ground arith in (old, k)
  | inr other ↦ change_scan-lookup id f rest st (rw (other) at h)
]

caught-ok :
    (handler : Exc → Exec (Unit {0})) (r : Result (Unit {0})) (w : World)
    → ((e : Exc) (v : World) → (handler e v).0 ≡ ok tt)
    → (caught handler r w).0 ≡ ok tt
caught-ok handler (ok u) w h = refl
caught-ok handler (err e) w h = h e w

-- The state is finished, at a moment of the clock.
abbrev pub IsFinished : Env → ScanState → Type 0
IsFinished env st = (n : ℕ) × (st.finished_at ≡ env.micros n)

module _ (env : Env) (id : String) where
  abbrev pub Ends : Result (Unit {0}) × World → Type 0
  Ends (r, w) =
      (r ≡ ok tt) × ((st : ScanState) → lookup_scan id w.scans ≡ some st → IsFinished env st)

  mark_done-Ends : (w : World) → Ends (mark_done env id w)
  unfolding mark_done on_scan put_scans time ask ◌>>=◌
  mark_done-Ends w = (
    refl,
    λ st h.
        let (old, e) =
          change_scan-lookup id (λ st. record st { finished_at = env.micros w.tick }) w.scans st
            h in
        (w.tick, ap (λ s. s.finished_at) (sym e)),
  )

  try-ok :
      (m : Exec (Unit {0})) (handler : Exc → Exec (Unit {0})) (w : World)
      → ((e : Exc) (v : World) → (handler e v).0 ≡ ok tt)
      → (try_except m handler w).0 ≡ ok tt
  unfolding try_except
  try-ok m handler w h = caught-ok handler (m w).0 (m w).1 h

  then-Ends :
      (r : Result (Unit {0})) (w : World) → r ≡ ok tt → Ends (after (λ _. mark_done env id) r w)
  then-Ends (ok u) w h = mark_done-Ends w
  then-Ends (err e) w h = ground arith

  -- However the scan and the saving of its results go, and whatever they raise, the background
  -- task returns, and if its state is still in the registry then its finishing time is a reading
  -- of the clock.
  pub run_scan-Ends :
      (cidr : String) (group : Option String) (user password : String) (w : World)
      → Ends (run_scan env id cidr group user password w)
  unfolding run_scan on_scan put_scans ◌>>=◌
  run_scan-Ends cidr group user password w = then-Ends _ _ (try-ok _ _ w (λ e v. refl))
