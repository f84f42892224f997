-- ===== src/Config/Tests.antt =====
-- Samples of configurations, and the validation on them.
use better_pg_keeper.Common.{pos, negsuc, ℕ, true, [], ◌≡◌, ◌≤◌, ◌⊎◌, refl, false}
use better_pg_keeper.Config.{ServerConfig, validate_server, errors_text}
use better_pg_keeper.Config.Accepts.{validate_server-IsProtected, IsProtected}

abbrev sample : ServerConfig
sample = record {
  host = "0.0.0.0";
  port = pos 8080;
  auth = record { enabled = true; username = "admin"; password = "s3cret" };
}

abbrev default_password : ServerConfig
default_password = record sample {
  port = negsuc 0;
  auth = record { enabled = true; username = "admin"; password = "admin" };
}

errors_text-default_password :
    errors_text (validate_server default_password)
    ≡ "multiple validation errors:\n  - server.port: port must be between 1 and 65535, got -1\n  - server.auth.password: the default admin/admin credentials are not allowed; set SERVER_PASSWORD, or server.auth.enabled: false for local use"
unfolding errors_text validate_server
errors_text-default_password = refl

sample_valid : validate_server sample ≡ []
unfolding validate_server
sample_valid = refl

validate_server-IsProtected_example :
    ((n : ℕ) × (sample.port ≡ pos n) × (1 ≤ n) × (n ≤ 65535))
    × ((sample.auth.enabled ≡ false) ⊎ IsProtected sample.auth)
validate_server-IsProtected_example = validate_server-IsProtected sample sample_valid
