-- ===== src/Connect.antt =====
-- How a device answers another that connects: src/core/network/server/controller/common_controller.cc.
pub mod Client
use lan_send.Base.{
  ℕ, String, Option, none, some, Bool, true, false, ◌==◌, ◌&&◌, not, is_empty, str_eq,
  if◌then◌else◌, List, [], ◌∷◌, ◌++◌,
}
use lan_send.ApiRoute
use lan_send.Message.{Bytes}
use lan_send.Json.{read_with}
use lan_send.Model.{DeviceInfo, Feedback}
use lan_send.Settings.{Settings}
use lan_send.Http.{RequestLine, Body, ok, bad_request, forbidden}
use lan_send.Receive.{Outcome}
use lan_send.Receive.Outcome.{responded}
use lan_send.Server.{RouteInfo}
use lan_send.Send.{Network, Reply, Connection}

-- nlohmann::json, for {"pin_code": …, "device_info": …}: `none` where parsing or a reading throws.
pub record ConnectCodec : Type 1 where
  pub Doc : Type 0
  pub dump : Doc → Bytes
  pub parse : Bytes → Option Doc
  pub to_connect : String × DeviceInfo → Doc
  pub from_connect : Doc → Option (String × DeviceInfo)

-- The handlers read the settings, and change nothing.
unfoldable pub on_ping : RequestLine → Bytes → Settings → Settings × Outcome
on_ping req body s = (s, responded (ok req (Body.text "")))

module _ (json : ConnectCodec) where
  unfoldable pub on_connect : RequestLine → Bytes → Settings → Settings × Outcome
  on_connect req body s = elim (read_with json.parse json.from_connect body) [
    | none ↦ (s, responded (bad_request req (Body.text "invalid data")))
    | some asked ↦
        if not (is_empty s.pin_code) && not (str_eq s.pin_code asked.0)
        then (s, responded (forbidden req (Body.text "Auth code mismatch")))
        else (s, responded (ok req (Body.text "Connection accepted")))
  ]

  -- CommonController::InstallRoutes
  unfoldable pub common_routes : List (RouteInfo Settings)
  common_routes =
      record { path = ApiRoute.ping; method = "GET"; handler = on_ping }
      ∷ record { path = ApiRoute.connect; method = "POST"; handler = on_connect }
      ∷ []
