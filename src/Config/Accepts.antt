-- ===== src/Config/Accepts.antt =====
-- internal/config/validation.go: what a server configuration that passes the validation satisfies.
use better_pg_keeper.Common.{
  ℤ, pos, negsuc, ℕ, ◌≤◌, ◌≡◌, ◌≢◌, refl, ◌⊎◌, inl, inr, Bool, true, false, List, [], ◌∷◌, ◌++◌,
  ite, if◌then◌else◌, str_dec, arith,
}
use better_pg_keeper.Config.{AuthConfig, ServerConfig, validate_auth, validate_server, is_port}

-- The password that an enabled authentication rests on.
abbrev pub IsProtected : AuthConfig → Type 0
IsProtected cfg =
    (cfg.username ≢ "")
    × (cfg.password ≢ "")
    × ¬ ((cfg.username ≡ "admin") × (cfg.password ≡ "admin"))

auth_guard :
    {E P Q R S : Type 0} (d : Dec P) (e : Dec Q) (f : Dec R) (g : Dec S) (x y z : E)
    → ite d (x ∷ []) [] ++ ite e (y ∷ []) (ite f (ite g (z ∷ []) []) []) ≡ []
    → (¬ P) × (¬ Q) × ¬ (R × S)
auth_guard (yes _) _ _ _ x y z h = ground arith
auth_guard (no _) (yes _) _ _ x y z h = ground arith
auth_guard (no p) (no q) (yes _) (yes _) x y z h = ground arith
auth_guard (no p) (no q) (no r) _ x y z h = (p, q, λ b. r b.0)
auth_guard (no p) (no q) (yes _) (no s) x y z h = (p, q, λ b. s b.1)

validate_auth-IsProtected : (cfg : AuthConfig) → validate_auth cfg ≡ [] → IsProtected cfg
unfolding validate_auth
validate_auth-IsProtected cfg h =
    auth_guard (str_dec cfg.username "") (str_dec cfg.password "") (str_dec cfg.username "admin")
      (str_dec cfg.password "admin") _ _ _ h

is_port-bounds : (p : ℤ) → is_port p ≡ true → (n : ℕ) × (p ≡ pos n) × (1 ≤ n) × (n ≤ 65535)
unfolding is_port
is_port-bounds (pos n) h = (n, refl, ground arith, ground arith)
is_port-bounds (negsuc n) h = ground arith

server_guard :
    {E : Type 0} (b c : Bool) (x : E) (l : List E)
    → (if b then [] else (x ∷ [])) ++ (if c then l else []) ≡ []
    → (b ≡ true) × ((c ≡ false) ⊎ (l ≡ []))
server_guard true true x l h = (refl, inr h)
server_guard true false x l h = (refl, inl refl)
server_guard false c x l h = ground arith

-- A server configuration that passes the validation has a port between 1 and 65535, and its
-- authentication is disabled or has a user name and a password that are not empty and not both admin.
pub validate_server-IsProtected :
    (cfg : ServerConfig)
    → validate_server cfg ≡ []
    → ((n : ℕ) × (cfg.port ≡ pos n) × (1 ≤ n) × (n ≤ 65535))
      × ((cfg.auth.enabled ≡ false) ⊎ IsProtected cfg.auth)
unfolding validate_server
validate_server-IsProtected cfg h =
    let (port, auth) = server_guard (is_port cfg.port) cfg.auth.enabled _ _ h in
    (
      is_port-bounds cfg.port port,
      elim auth [ inl off ↦ inl off | inr ok ↦ inr (validate_auth-IsProtected cfg.auth ok) ],
    )
