-- ===== src/Devices/Forms.antt =====
-- The forms of `_enhanced_forward_task_sync` of backend/routes/devices.py.
use lvyou_smsweb.Prelude.{
  String, List, ℕ, if◌then◌else◌, ◌∷◌, [], ◌==◌, ◌||◌, text_comparable, ◌++◌,
}
use lvyou_smsweb.World.{Pairs}

-- `EnhancedBatchForwardReq`: the method, and the fields of the forms by their names.
pub record ForwardReq : Type 0 where
  pub device_ids : List ℕ
  pub forward_method : String
  pub value : String → String

-- The fields that a form takes from the request under their own names.
abbrev pub fields_as : (String → String) → List (String × String) → Pairs
fields_as value [] = []
fields_as value ((key, name) ∷ rest) = (key, value name) ∷ fields_as value rest

abbrev pub webhook_urls : List (String × String)
webhook_urls =
    ("WDF_CWH_URL1", "webhookUrl1")
    ∷ ("WDF_CWH_URL2", "webhookUrl2")
    ∷ ("WDF_CWH_URL3", "webhookUrl3")
    ∷ []

abbrev pub sign_keys : List (String × String)
sign_keys =
    ("WDF_SIGN_KEY1", "signKey1")
    ∷ ("WDF_SIGN_KEY2", "signKey2")
    ∷ ("WDF_SIGN_KEY3", "signKey3")
    ∷ []

abbrev pub smtp_fields : List (String × String)
smtp_fields =
    ("SMTP_PROVIDER", "smtpProvider")
    ∷ ("SMTP_SERVER", "smtpServer")
    ∷ ("SMTP_PORT", "smtpPort")
    ∷ ("SMTP_ACCOUNT", "smtpAccount")
    ∷ ("SMTP_PASSWORD", "smtpPassword")
    ∷ ("SMTP_FROM_EMAIL", "smtpFromEmail")
    ∷ ("SMTP_TO_EMAIL", "smtpToEmail")
    ∷ ("SMTP_ENCRYPTION", "smtpEncryption")
    ∷ []

-- The fields that belong to a method of forwarding.
unfoldable pub method_fields : String → List (String × String)
method_fields method =
    if method == "0"
    then []
    else if method == "1" || method == "2"
    then ("BARK_DEVICE_KEY0", "deviceKey0")
      ∷ ("BARK_DEVICE_KEY1", "deviceKey1")
      ∷ ("BARK_DEVICE_KEY2", "deviceKey2")
      ∷ []
    else if method == "8"
    then smtp_fields
    else if method == "10" || method == "11" || method == "16"
    then webhook_urls
    else if method == "13"
    then webhook_urls ++ sign_keys
    else if method == "21"
    then ("SCT_SEND_KEY", "sctSendKey") ∷ []
    else if method == "22"
    then ("SC3_URL", "sc3ApiUrl") ∷ []
    else if method == "30"
    then ("PPToken", "PPToken")
      ∷ ("PPChannel", "PPChannel")
      ∷ ("PPWebhook", "PPWebhook")
      ∷ ("PPFriends", "PPFriends")
      ∷ ("PPGroupId", "PPGroupId")
      ∷ []
    else if method == "35"
    then ("WPappToken", "WPappToken") ∷ ("WPUID", "WPUID") ∷ ("WPTopicId", "WPTopicId") ∷ []
    else if method == "90"
    then ("LYWEB_API_URL", "lyApiUrl") ∷ []
    else ("forwardUrl", "forwardUrl") ∷ ("notifyUrl", "notifyUrl") ∷ []

unfoldable pub forward_form : ForwardReq → Pairs
unfolding method_fields
forward_form req =
    ("method", req.forward_method) ∷ fields_as req.value (method_fields req.forward_method)

-- The values of the request that `api_batch_forward` builds; what it does not name is empty.
abbrev pub basic_value : String → String → String → String
basic_value forward_url notify_url name =
    if name == "forwardUrl" then forward_url else if name == "notifyUrl" then notify_url else ""
