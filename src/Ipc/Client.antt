-- ===== src/Ipc/Client.antt =====
-- src/include/core/network/client/http_client_service.h: the calls that the backend makes of
-- HttpClientService.
use lan_send.Base.{ℕ, String, List}

pub data ClientCall : Type 0 where
  -- address, port, paths
  send_files : String → ℕ → List String → ClientCall
  cancel_send : String → ClientCall
  cancel_wait_for_confirmation : String → ℕ → ClientCall
  -- pin code, address, port, device
  connect_device : String → String → ℕ → String → ClientCall
