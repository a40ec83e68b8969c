-- ===== src/ApiRoute.antt =====
-- src/include/core/constant/route.h: the paths of the requests between two devices.
use lan_send.Base.{String}

abbrev pub ping : String
ping = "/ping"

abbrev pub connect : String
connect = "/connect"

abbrev pub request_send : String
request_send = "/request-send"

abbrev pub send_chunk : String
send_chunk = "/send-chunk"

abbrev pub verify_integrity : String
verify_integrity = "/verify-integrity"

abbrev pub cancel_send : String
cancel_send = "/cancel-send"

abbrev pub cancel_wait : String
cancel_wait = "/cancel-wait"
