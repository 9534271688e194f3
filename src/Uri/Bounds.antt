-- ===== src/Uri/Bounds.antt =====
-- What a URI that was parsed is like.
use rockets.Prelude.{◌^◌, ◌<◌, ◌≡◌, ◌↔◌, some, ◌∷◌, arith}
use rockets.Prelude.Int.{pos}
use rockets.Prelude.Result.{ok}
use rockets.Uri.{Uri, ParsedUri, parse_with}

-- `parse` succeeds exactly for a URI that libwebsockets can parse with a port that has 16 bits; then
-- the protocol, the host and the port are kept, and a slash stands before the parsed path.
pub parse_with-cases :
    (p : ParsedUri) (u : Uri)
    → (parse_with (some p) ≡ ok u) ↔ (
        (p.port ≡ pos u.port)
        × (u.port < 2 ^ 16)
        × (u.path ≡ b'/' ∷ p.path)
        × (u.host ≡ p.address)
        × (u.protocol ≡ p.protocol))
unfolding parse_with
parse_with-cases p u = (λ h. ground arith, λ h. ground arith)
