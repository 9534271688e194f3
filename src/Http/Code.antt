-- ===== src/Http/Code.antt =====
-- The codes of rockets/http/types.h that the program itself sets. A code read from a server is any
-- number, so the type of codes is that of numbers.
use rockets.Prelude.{ℕ}

abbrev pub ok : ℕ
ok = 200

abbrev pub not_found : ℕ
not_found = 404

abbrev pub not_supported : ℕ
not_supported = 405

abbrev pub internal_server_error : ℕ
internal_server_error = 500
