-- ===== src/Client/Probe/Bound.antt =====
-- What a probe by `istargetdevice` costs.
use lvyou_smsweb.World.{World, Call}
use lvyou_smsweb.Prelude.{ℕ, ◌+◌, ◌∷◌, List, if◌then◌else◌, is_some, []}

-- The HTTP requests that a call of the client stands for, at most: `httpx.DigestAuth` sends a request
-- without credentials first, and after the challenge one with them.
abbrev pub requests : List Call → ℕ
requests [] = 0
requests (c ∷ cs) = (if is_some c.auth then 2 else 1) + requests cs
