-- ===== src/Auth.antt =====
-- pantry/auth: refresh tokens (jwt/refresh.go), and tokens (jwt/jwt.go, jwt/claims.go).
pub mod Refresh
pub mod Jwt
