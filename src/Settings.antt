-- ===== src/Settings.antt =====
-- src/include/core/util/config.h and src/include/core/model/feedback/settings.h: the settings of the
-- application, a global variable of the program.
pub mod Config
use lan_send.Base.{ℕ, String, Bool}
use lan_send.Model.{Feedback}

pub record Settings : Type 0 where
  pub port : ℕ
  pub pin_code : String
  pub auto_receive : Bool
  pub save_dir : String

-- feedback::Settings::FromConfigSettings
unfoldable pub from_config_settings : Settings → Feedback
from_config_settings s = Feedback.settings s.port s.pin_code s.auto_receive s.save_dir
