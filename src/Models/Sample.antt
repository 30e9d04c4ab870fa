-- ===== src/Models/Sample.antt =====
-- An endpoint and a response (internal/models/models.go) on which the tests of the other parts run.
use w8nc.Base.{true, false, none, some, []}
use w8nc.Base.Int.{pos}
use w8nc.Base.Text.{codes}
use w8nc.Models.{ProxyConfig, Condition, Endpoint, PingResult, int, live}

abbrev pub no_proxy : ProxyConfig
no_proxy = record {
  enabled = false;
  address = [];
  username = [];
  password = [];
  password_encrypted = none;
  password_set = false;
}

abbrev pub equals_200 : Condition
equals_200 = record {
  type = codes "status_code_equals";
  value = int (pos 200);
  tolerance_bytes = none;
}

-- It is active, due at 100, and notifies once when the status is 200.
abbrev pub sample : Endpoint
sample = record {
  id = codes "e";
  name = none;
  description = [];
  url = codes "https://a.b";
  http_method = codes "GET";
  headers = [];
  request_body_enabled = false;
  request_body = [];
  proxy = no_proxy;
  ping_interval_seconds = pos 60;
  deactivate_after_seconds = some (pos 3600);
  notify_condition = equals_200;
  notify_once = true;
  notification_template = [];
  screenshot_on_match = true;
  active = true;
  state = live;
  created_at = 1;
  updated_at = 1;
  last_checked_at = none;
  next_run_at = some 100;
  deactivate_at = some 5000;
  last_status_code = none;
  last_response_length = none;
  last_error = none;
  last_duration_ms = none;
  baseline_status_code = some 500;
  baseline_response_length = some 10;
  notified_at = none;
  deactivated_reason = none;
  locked_until = none;
  version = 1;
}

abbrev pub response : PingResult
response = record {
  started_at = 110;
  finished_at = 120;
  status_code = some 200;
  response_headers = [];
  response_length = some 25;
  duration_ms = 1;
  error = none;
  truncated = false;
  body = codes "all well";
}
