-- ===== src/Devices/Batch/Refused.antt =====
-- What the batch routes of backend/routes/devices.py do with batches that are empty or too large.
use lvyou_smsweb.Prelude.{
  [], ◌∷◌, ℕ, List, String, length, ltb, ◌≡◌, ◌⊎◌, suc, ◌<◌, true, refl, arith, concat, show_ℕ,
}
use lvyou_smsweb.World.{Exec, Env, ◌>>=◌, World, raise, err, http}
use lvyou_smsweb.Devices.Batch.{
  api_batch_wifi_preview, check_batch_size, api_batch_wifi, api_batch_sim, api_batch_forward,
  api_enhanced_batch_forward,
}
use lvyou_smsweb.Devices.Forms.{ForwardReq}

-- The action is answered with the status 400, and nothing has happened.
abbrev pub IsRefused : {A : Type 0} → Exec A → World → Type 0
IsRefused m w = (text : String) × (m w ≡ (err (http 400 text), w))

IsRefused-then :
    {A B : Type 0} (m : Exec A) (k : A → Exec B) (w : World) → IsRefused m w → IsRefused (m >>= k) w
unfolding ◌>>=◌
IsRefused-then m k w (text, e) = (text, rw (e) refl)

-- No identifiers, or more than a batch may have.
abbrev pub IsBadSize : ℕ → List ℕ → Type 0
IsBadSize limit ids = (length ids ≡ 0) ⊎ (limit < length ids)

module _ (env : Env) where
  size-IsRefused :
      (ids : List ℕ) (w : World)
      → IsBadSize env.config.batch_max ids
      → IsRefused (check_batch_size env ids) w
  unfolding check_batch_size raise
  size-IsRefused [] w h = ("device_ids required", refl)
  size-IsRefused (i ∷ ids) w h =
      let big : ltb env.config.batch_max (suc (length ids)) ≡ true = ground arith in
      (concat ("单次批量操作不得超过 " ∷ show_ℕ env.config.batch_max ∷ " 台" ∷ []), rw (big) refl)

  -- A batch of no boards, or of more boards than configured, is refused by each of the batch routes
  -- for wireless networks, SIM numbers and forwarding, basic and enhanced, before anything is read, sent or written.
  pub bad_size-IsRefused :
      (ids : List ℕ) (w : World)
      → IsBadSize env.config.batch_max ids
      → ((ssid : String) → IsRefused (api_batch_wifi_preview env ids ssid) w)
        × (((ssid pwd : String) → IsRefused (api_batch_wifi env ids ssid pwd) w)
            × (((sim1 sim2 : String) → IsRefused (api_batch_sim env ids sim1 sim2) w)
                × (((url notify : String) → IsRefused (api_batch_forward env ids url notify) w)
                    × ((req : ForwardReq)
                        → IsRefused
                            (api_enhanced_batch_forward env (record req { device_ids = ids }))
                            w))))
  unfolding api_batch_wifi_preview api_batch_wifi api_batch_sim api_batch_forward
      api_enhanced_batch_forward
  bad_size-IsRefused ids w h =
      let no = size-IsRefused ids w h in
      (
        λ ssid. IsRefused-then (check_batch_size env ids) _ w no,
        (
          λ ssid pwd. IsRefused-then (check_batch_size env ids) _ w no,
          (
            λ sim1 sim2. IsRefused-then (check_batch_size env ids) _ w no,
            (
              λ url notify. IsRefused-then (check_batch_size env ids) _ w no,
              λ req. IsRefused-then (check_batch_size env ids) _ w no,
            ),
          ),
        ),
      )
