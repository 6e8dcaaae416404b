-- ===== src/Server/Status.antt =====
-- crates/fr-pyiface/src/app.rs and server.rs: status codes.
use hyperfastapi.Prelude.{ℕ, suc, ◌-◌, ◌%◌, ◌^◌, ◌&&◌, ltb, leb, if◌then◌else◌}
use hyperfastapi.Prelude.Int.{ℤ, pos, negsuc}

-- `n as u16`
unfoldable pub to_u16 : ℤ → ℕ
to_u16 (pos n) = n % 2 ^ 16
to_u16 (negsuc n) = 2 ^ 16 - suc (n % 2 ^ 16)

-- `StatusCode::from_u16(s).unwrap_or(StatusCode::OK)`: a status has three digits.
unfoldable pub status_or_ok : ℕ → ℕ
status_or_ok s = if leb 100 s && ltb s 1000 then s else 200
