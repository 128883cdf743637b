-- ===== src/Client/Confined.antt =====
-- Which addresses the functions of backend/device_client.py contact.
use lvyou_smsweb.World.{Env, Call}
use lvyou_smsweb.Prelude.{String, ℕ, Option}
use lvyou_smsweb.Client.Probe.{attempts, istargetdevice}
use lvyou_smsweb.Client.Data.{
  getdevicedata, write_device_config, get_wifi_info, fetch_device_token, read_device_config,
  json_of, raise_for_status, token_value, query_board,
}
use lvyou_smsweb.Security.Allow.Layers.{IsInternal}
use lvyou_smsweb.Client.Ota.{ota_check}
use lvyou_smsweb.Json.{Json}
use lvyou_smsweb.Invariant.{Safe, base_rules, send-Safe, ensure-Safe, Good}
use lvyou_smsweb.Client.Probe.Kept.{attempts-Kept}

module _ (env : Env) (H : Type 0) where
  pub query_board-Safe : (c : Call) → IsInternal env c.ip → Safe env H (query_board env c)
  unfolding query_board json_of
  query_board-Safe c h = search (base_rules, send-Safe) depth 8

  pub token_value-Safe : (v : Json) → Safe env H (token_value env v)
  unfolding token_value
  token_value-Safe v = search base_rules

  pub ruleset safe_rules = (base_rules, send-Safe, query_board-Safe, token_value-Safe, ensure-Safe)

  module _ (ip user pw : String) where
    attempts-Safe :
        (n : ℕ) (last : Option String)
        → IsInternal env ip
        → Safe env H (attempts env ip user pw n last)
    attempts-Safe = attempts-Kept env (Good env H) (IsInternal env) (send-Safe env H) ip user pw

    pub istargetdevice-Safe : Safe env H (istargetdevice env ip user pw)
    unfolding istargetdevice
    istargetdevice-Safe = search (safe_rules, attempts-Safe)

    pub getdevicedata-Safe : Safe env H (getdevicedata env ip user pw)
    unfolding getdevicedata
    getdevicedata-Safe = search safe_rules

    pub get_wifi_info-Safe : Safe env H (get_wifi_info env ip user pw)
    unfolding get_wifi_info
    get_wifi_info-Safe = search safe_rules

    pub read_device_config-Safe : Safe env H (read_device_config env ip user pw)
    unfolding read_device_config
    read_device_config-Safe = search safe_rules

    pub write_device_config-Safe :
        (content : String) → Safe env H (write_device_config env ip user pw content)
    unfolding write_device_config
    write_device_config-Safe content = search safe_rules

    pub fetch_device_token-Safe : Safe env H (fetch_device_token env ip user pw)
    unfolding fetch_device_token json_of raise_for_status
    fetch_device_token-Safe = search safe_rules depth 12

    pub ota_check-Safe : Safe env H (ota_check env ip user pw)
    unfolding ota_check json_of raise_for_status
    ota_check-Safe = search safe_rules depth 12
