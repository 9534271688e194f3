-- ===== src/Uri/Examples.antt =====
-- Tests of the URI parser, on "http://host:80/x".
use rockets.Prelude.{◌≡◌, refl, bytes, some}
use rockets.Prelude.Int.{pos}
use rockets.Prelude.Result.{ok}
use rockets.Uri.{Uri, ParsedUri, parse_with}

abbrev parsed : ParsedUri
parsed = record { protocol = bytes "http"; address = bytes "host"; port = pos 80; path = bytes "x" }

abbrev uri : Uri
uri = record { protocol = bytes "http"; host = bytes "host"; port = 80; path = bytes "/x" }

good_parse : parse_with (some parsed) ≡ ok uri
unfolding parse_with
good_parse = refl
