-- ===== src/Store/Listing/Tests.antt =====
-- The parameters of a list on concrete values, and the theorem at an input.
use w8nc.Base.{◌≡◌, refl, none, []}
use w8nc.Base.Int.{pos, negsuc}
use w8nc.Base.Text.{codes, text_eq, trim_space, trim_left}
use w8nc.Store.Listing.{ListEndpointsParams, is_sort_key, normalize}

abbrev asked : ListEndpointsParams
asked = record {
  page = negsuc 2;
  page_size = pos 50;
  sort = codes "id; DROP TABLE";
  state = [];
  active = none;
  method = codes " get ";
  search = [];
  tag = codes "Prod";
}

normalized : normalize asked ≡ record asked {
  page = pos 1;
  sort = codes "created_desc";
  method = codes "GET";
  tag = codes "prod";
}
unfolding normalize is_sort_key text_eq trim_space trim_left
normalized = refl
