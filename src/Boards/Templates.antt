-- ===== src/Boards/Templates.antt =====
-- `CLEAN_MESSAGE_TEMPLATES` of backend/routes/config.py: the message templates of the preset, by
-- their lines.
use lvyou_smsweb.Prelude.{String, [], ◌∷◌, join}

unfoldable pub clean_message_templates : String
clean_message_templates = join "\n" (
    "~~--==~~--==" ∷ "502" ∷ "{" ∷ "  \"msgtype\": \"text\"," ∷ "  \"text\": {"
    ∷ "    \"content\": \"【短信外发成功】{{LN}}对方号码：{{phNum|$jsonEscape()}}{{LN}}短信内容：{{smsBd|$jsonEscape()}}{{LN}}发出时间：{{YMDHMS}}{{LN}}{{LN}}发出设备：{{{devName|$jsonEscape()}}}{{LN}}发出卡槽：{{msIsdn}}（卡{{slot}}）{{scName|$jsonEscape()}}\""
    ∷ "  }" ∷ "}" ∷ "~~--==~~--==" ∷ "603" ∷ "{" ∷ "  \"msgtype\": \"text\"," ∷ "  \"text\": {"
    ∷ "    \"content\": \"【来电提醒】{{LN}}号码：{{phNum|$jsonEscape()}}{{LN}}通话时间：{{telStartTs|$ts2hhmmss(':')}} 至 {{telEndTs|$ts2hhmmss(':')}}{{LN}}{{LN}}来自设备：{{{devName|$jsonEscape()}}}{{LN}}卡槽：{{msIsdn}}（卡{{slot}}）{{scName|$jsonEscape()}}\""
    ∷ "  }" ∷ "}" ∷ "~~--==~~--==" ∷ "695" ∷ "{" ∷ "  \"msgtype\": \"voice\","
    ∷ "  \"voice\": { \"media_id\": \"{{telMediaId}}\" }" ∷ "}" ∷ "~~--==~~--==" ∷ "501" ∷ "{"
    ∷ "  \"msgtype\": \"text\"," ∷ "  \"text\": {"
    ∷ "    \"content\": \"{{smsBd|$jsonEscape()}}{{LN}}短信号码：{{phNum|$jsonEscape()}}{{LN}}短信时间：{{smsTs|$ts2yyyymmddhhmmss('-',':')}}{{LN}}{{LN}}来自设备：{{{devName|$jsonEscape()}}}{{LN}}卡槽：{{msIsdn}}（卡{{slot}}）{{scName|$jsonEscape()}}\""
    ∷ "  }" ∷ "}" ∷ "~~--==~~--==" ∷ "209" ∷ "{" ∷ "  \"msgtype\": \"text\"," ∷ "  \"text\": {"
    ∷ "    \"content\": \"卡{{slot}}存在故障，请将卡放入手机检查原因！{{LN}}{{LN}}SIM卡信息：{{LN}}ICCID：{{iccId}}{{LN}}IMSI：{{imsi}}{{LN}}卡号：{{msIsdn}} {{scName|$jsonEscape()}}{{LN}}{{LN}}来自设备：{{{devName|$jsonEscape()}}}{{LN}}卡槽：卡{{slot}}\""
    ∷ "  }" ∷ "}" ∷ "~~--==~~--==" ∷ "205" ∷ "{" ∷ "  \"msgtype\": \"text\"," ∷ "  \"text\": {"
    ∷ "    \"content\": \"卡{{slot}}已从设备中取出！{{LN}}{{LN}}SIM卡信息：{{LN}}ICCID：{{iccId}}{{LN}}IMSI：{{imsi}}{{LN}}卡号：{{msIsdn}} {{scName|$jsonEscape()}}{{LN}}{{LN}}来自设备：{{{devName|$jsonEscape()}}}{{LN}}卡槽：卡{{slot}}\""
    ∷ "  }" ∷ "}" ∷ "~~--==~~--==" ∷ "204" ∷ "{" ∷ "  \"msgtype\": \"text\"," ∷ "  \"text\": {"
    ∷ "    \"content\": \"卡{{slot}}已就绪！{{LN}}{{LN}}SIM卡信息：{{LN}}ICCID：{{iccId}}{{LN}}IMSI：{{imsi}}{{LN}}卡号：{{msIsdn}} {{scName|$jsonEscape()}}{{LN}}信号强度：{{dbm}}%{{LN}}{{LN}}来自设备：{{{devName|$jsonEscape()}}}{{LN}}卡槽：卡{{slot}}\""
    ∷ "  }" ∷ "}" ∷ "~~--==~~--==" ∷ "102" ∷ "{" ∷ "  \"msgtype\": \"text\"," ∷ "  \"text\": {"
    ∷ "    \"content\": \"【设备上线提醒】{{LN}}设备已通过 卡2 上线！{{LN}}{{LN}}SIM卡信息：{{LN}}ICCID：{{iccId}}{{LN}}IMSI：{{imsi}}{{LN}}卡号：{{msIsdn}} {{scName|$jsonEscape()}}{{LN}}信号强度：{{dbm}}%{{LN}}{{LN}}来自设备：{{{devName|$jsonEscape()}}}{{LN}}卡槽：卡{{slot}}\""
    ∷ "  }" ∷ "}" ∷ "~~--==~~--==" ∷ "101" ∷ "{" ∷ "  \"msgtype\": \"text\"," ∷ "  \"text\": {"
    ∷ "    \"content\": \"【设备上线提醒】{{LN}}设备已通过 卡1 上线！{{LN}}{{LN}}SIM卡信息：{{LN}}ICCID：{{iccId}}{{LN}}IMSI：{{imsi}}{{LN}}卡号：{{msIsdn}} {{scName|$jsonEscape()}}{{LN}}信号强度：{{dbm}}%{{LN}}{{LN}}来自设备：{{{devName|$jsonEscape()}}}{{LN}}卡槽：卡{{slot}}\""
    ∷ "  }" ∷ "}" ∷ "~~--==~~--==" ∷ "100" ∷ "{" ∷ "  \"msgtype\": \"text\"," ∷ "  \"text\": {"
    ∷ "    \"content\": \"【设备上线提醒】{{LN}}设备已通过 WiFi 上线！{{LN}}{{LN}}本机IP：{{ip}}{{LN}}WiFi热点：{{ssid|$jsonEscape()}}{{LN}}信号强度：{{dbm}}%{{LN}}{{LN}}来自设备：{{{devName|$jsonEscape()}}}\""
    ∷ "  }" ∷ "}" ∷ [])
