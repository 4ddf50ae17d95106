-- ===== src/Api/Router.antt =====
-- `create_router` of control_api.rs: which handler a request's method and path select.
use daemon_choir.Base.{ℕ, Option, none, some, String, List, if◌then◌else◌, str_eq}
use daemon_choir.Config.{OscBackendConfig}
use daemon_choir.Api.{HttpRequest, Disk}

pub data Method : Type 0 where
  get post put : Method

-- a request, with its header `X-Daemon-Choir`
pub record Request : Type 0 where
  pub method : Method
  pub path : String
  pub header : Option String

-- what a handler takes from elsewhere: the configuration's file, the time, and the request's body
pub record Surroundings (F : Type 0) : Type 0 where
  pub disk : Disk F
  pub uptime_secs : ℕ
  pub new_backends : List OscBackendConfig

module _ {F : Type 0} where
  unfoldable pub get_route : Surroundings F → String → Option (HttpRequest F)
  get_route w path =
      if str_eq path "/v1/status"
      then some (HttpRequest.get_status w.uptime_secs)
      else if str_eq path "/v1/state"
      then some HttpRequest.get_state
      else if str_eq path "/v1/voices"
      then some HttpRequest.get_voices
      else if str_eq path "/v1/probes"
      then some HttpRequest.get_probes
      else if str_eq path "/v1/config"
      then some HttpRequest.get_config
      else if str_eq path "/v1/metrics"
      then some HttpRequest.get_metrics
      else none

  unfoldable pub post_route : Surroundings F → String → Option String → Option (HttpRequest F)
  post_route w path header =
      if str_eq path "/v1/config/reload"
      then some (HttpRequest.post_reload w.disk)
      else if str_eq path "/v1/shutdown"
      then some (HttpRequest.post_shutdown header)
      else if str_eq path "/v1/privacy/wipe"
      then some (HttpRequest.post_wipe header)
      else none

  unfoldable pub put_route : Surroundings F → String → Option (HttpRequest F)
  put_route w path =
      if str_eq path "/v1/config/backends"
      then some (HttpRequest.put_backends w.new_backends)
      else none

  -- `none` where no route fits
  unfoldable pub resolve_by :
      Surroundings F → Method → String → Option String → Option (HttpRequest F)
  unfolding get_route post_route put_route
  resolve_by w Method.get path header = get_route w path
  resolve_by w Method.post path header = post_route w path header
  resolve_by w Method.put path header = put_route w path

  abbrev pub resolve : Surroundings F → Request → Option (HttpRequest F)
  resolve w r = resolve_by w r.method r.path r.header
