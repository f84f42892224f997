-- ===== src/Config.antt =====
-- internal/config/config.go and internal/config/validation.go: the configurations of the server, the
-- scheduler and the index advisor, and their validation.
pub mod Accepts
pub mod Tests
use Prim.Native.String.{String}
use better_pg_keeper.Common.{
  ℤ, pos, negsuc, ℕ, suc, not, Bool, true, false, List, [], ◌∷◌, ◌++◌, ltb, if◌then◌else◌, ◌||◌,
  ite, str_dec, decimal, sprint,
}

pub record AuthConfig : Type 0 where
  pub enabled : Bool
  pub username : String
  pub password : String

pub record ServerConfig : Type 0 where
  pub host : String
  pub port : ℤ
  pub auth : AuthConfig

pub record SchedulerConfig : Type 0 where
  pub snapshot_interval : ℤ
  pub analysis_interval : ℤ

pub record IndexAdvisorConfig : Type 0 where
  pub enabled : Bool
  pub max_queries : ℤ

pub record ValidationError : Type 0 where
  pub field : String
  pub message : String

unfoldable pub error_text : ValidationError → String
error_text e = sprint (e.field ∷ ": " ∷ e.message ∷ [])

unfoldable pub join_errors : List ValidationError → String
unfolding error_text
join_errors [] = ""
join_errors (e ∷ es) = sprint ("\n  - " ∷ error_text e ∷ join_errors es ∷ [])

-- The joined messages, each after its separator: the first one stands in the format.
unfoldable pub errors_text : List ValidationError → String
unfolding error_text join_errors
errors_text [] = "no validation errors"
errors_text (e ∷ []) = error_text e
errors_text (e ∷ f ∷ es) = sprint ("multiple validation errors:" ∷ join_errors (e ∷ f ∷ es) ∷ [])

unfoldable pub show_int : ℤ → String
unfolding decimal
show_int (pos n) = decimal n
show_int (negsuc n) = sprint ("-" ∷ decimal (suc n) ∷ [])

unfoldable pub is_port : ℤ → Bool
is_port (pos n) = not (ltb n 1 || ltb 65535 n)
is_port (negsuc _) = false

unfoldable pub is_positive : ℤ → Bool
is_positive (pos n) = ltb 0 n
is_positive (negsuc _) = false

abbrev pub require : Bool → ValidationError → List ValidationError
require ok e = if ok then [] else e ∷ []

unfoldable pub validate_auth : AuthConfig → List ValidationError
unfolding str_dec
validate_auth cfg =
    ite (str_dec cfg.username "")
      (record {
        field = "server.auth.username";
        message = "username is required when auth is enabled";
      }
        ∷ [])
      []
    ++ ite (str_dec cfg.password "")
        (record {
          field = "server.auth.password";
          message =
              "password is required when auth is enabled; set SERVER_PASSWORD, or server.auth.enabled: false for local use";
        }
          ∷ [])
        (ite (str_dec cfg.username "admin")
          (ite (str_dec cfg.password "admin")
            (record {
              field = "server.auth.password";
              message =
                  "the default admin/admin credentials are not allowed; set SERVER_PASSWORD, or server.auth.enabled: false for local use";
            }
              ∷ [])
            [])
          [])

unfoldable pub validate_server : ServerConfig → List ValidationError
unfolding validate_auth is_port show_int
validate_server cfg =
    require (is_port cfg.port) (record {
      field = "server.port";
      message = sprint ("port must be between 1 and 65535, got " ∷ show_int cfg.port ∷ []);
    })
    ++ (if cfg.auth.enabled then validate_auth cfg.auth else [])

unfoldable pub validate_scheduler : SchedulerConfig → List ValidationError
unfolding is_positive
validate_scheduler cfg =
    require (is_positive cfg.snapshot_interval) (record {
      field = "scheduler.snapshot_interval";
      message = "snapshot_interval must be positive";
    })
    ++ require (is_positive cfg.analysis_interval) (record {
      field = "scheduler.analysis_interval";
      message = "analysis_interval must be positive";
    })

-- cfg.MaxQueries is from 1 to 200.
unfoldable pub is_query_count : ℤ → Bool
is_query_count (pos n) = not (ltb n 1 || ltb 200 n)
is_query_count (negsuc _) = false

-- The part of Validate on the index advisor.
unfoldable pub validate_index_advisor : IndexAdvisorConfig → List ValidationError
unfolding is_query_count show_int
validate_index_advisor cfg =
    if cfg.enabled
    then require (is_query_count cfg.max_queries) (record {
      field = "index_advisor.max_queries";
      message =
          sprint ("max_queries must be between 1 and 200, got " ∷ show_int cfg.max_queries ∷ []);
    })
    else []
