-- ===== src/Api/Sample.antt =====
-- A server, tables and an input that the tests of the server share.
use w8nc.Base.{
  ◌≡◌, refl, ap, ◌∙◌, subst, Bool, true, false, Option, none, some, [], ◌∷◌, length, ◌==◌,
}
use w8nc.Base.Int.{pos}
use w8nc.Base.Text.{Text, codes}
use w8nc.Models.{HeaderInput}
use w8nc.Models.Sample.{no_proxy, equals_200}
use w8nc.Store.{Conn}
use w8nc.Api.{EndpointInput, World, Config}
use w8nc.Api.Inputs.Sealing.{Seals}

abbrev pub start : Conn
start = record {
  db = record {
    endpoints = [];
    endpoint_checks = [];
    notification_events = [];
    screenshot_attempts = [];
    last_seen_at = none;
    notification_settings = none;
    users = [];
    sessions = [];
    tags = [];
    endpoint_tags = [];
  };
  faults = [];
}

-- A secret is sealed by an `s` before it.
abbrev pub world : World
world = record {
  net = record {
    parse_url = λ raw. some (record {
      scheme = codes "https";
      has_user = false;
      host = raw;
      hostname = raw;
      path = [];
      raw_query = [];
      fragment = [];
      rest = [];
    });
    url_string = λ url. url.host;
    parse_ip = λ text. none;
    split_host_port = λ address. some (address, codes "1080");
    join_host_port = λ host port. host;
  };
  encrypt = some (λ value. some (115 ∷ value));
  count_runes = λ text. length text;
}

abbrev pub config : Config
config = record {
  allow_private_targets = false;
  min_ping_interval = pos 1000000000;
  max_ping_interval = pos 3600000000000;
}

abbrev pub authorization : HeaderInput
authorization = record {
  name = codes "Authorization";
  value = codes "abc";
  sensitive = none;
  masked = none;
}

abbrev pub input : EndpointInput
input = record {
  name = some (codes " ");
  description = [];
  url = codes "a.b";
  http_method = [];
  headers = authorization ∷ [];
  request_body_enabled = false;
  request_body = [];
  proxy = no_proxy;
  ping_interval = codes "1m";
  deactivate_after = codes "2h";
  notify_condition = equals_200;
  notify_once = none;
  notification_template = [];
  screenshot_on_match = true;
  tags = record { name = codes "Web"; color = [] } ∷ [];
  active = true;
}

abbrev pub starts_with_s : Text → Bool
starts_with_s [] = false
starts_with_s (c ∷ text) = c == 115

abbrev pub StartsWithS : Text → Type 0
StartsWithS text = starts_with_s text ≡ true

apply : Option (Text → Option Text) → Text → Option Text
apply none value = none
apply (some seal) value = seal value

or_empty : Option Text → Text
or_empty none = []
or_empty (some text) = text

pub world-Seals : Seals StartsWithS world
unfolding apply or_empty
world-Seals seal e value secret h =
    subst StartsWithS (ap or_empty (ap (λ box. apply box value) e ∙ h)) refl
