-- ===== src/Static/StatusCode.antt =====
-- `http_status_code` of src/static.h. A status code that was never set is 0.
use wind_breaker.Prelude.{ℕ}

abbrev pub ok : ℕ
ok = 200

abbrev pub moved_permanently : ℕ
moved_permanently = 301

abbrev pub not_modified : ℕ
not_modified = 304

abbrev pub bad_request : ℕ
bad_request = 400

abbrev pub not_found : ℕ
not_found = 404

abbrev pub method_not_allowed : ℕ
method_not_allowed = 405

abbrev pub not_acceptable : ℕ
not_acceptable = 406

abbrev pub internal_server_error : ℕ
internal_server_error = 500

abbrev pub not_implemented : ℕ
not_implemented = 501

abbrev pub service_unavailable : ℕ
service_unavailable = 503
