-- ===== src/Uri.antt =====
-- rockets/utils.h and utils.cpp: the parts of a URI, and the network interfaces of the host. What
-- libwebsockets and the operating system give are parameters.
pub mod Bounds
pub mod Examples
use rockets.Prelude.{
  ℕ, ◌^◌, Text, bytes, text_eq, is_empty, Bool, true, false, ◌&&◌, ◌||◌, Option, none, some, List,
  [], ◌∷◌, ◌++◌, ltb, if◌then◌else◌,
}
use rockets.Prelude.Int.{ℤ, pos, negsuc}
use rockets.Prelude.Result.{Result, ok, throw, invalid_argument}

pub record Uri : Type 0 where
  pub protocol : Text
  pub host : Text
  pub port : ℕ
  pub path : Text

-- What lws_parse_uri finds.
pub record ParsedUri : Type 0 where
  pub protocol : Text
  pub address : Text
  pub port : ℤ
  pub path : Text

abbrev port_of : ℤ → Option ℕ
port_of (negsuc n) = none
port_of (pos n) = if ltb n (2 ^ 16) then some n else none

-- `parse`, behind lws_parse_uri
unfoldable pub parse_with : Option ParsedUri → Result Uri
parse_with none = throw (invalid_argument (bytes "invalid uri"))
parse_with (some p) = elim (port_of p.port) [
  | none ↦ throw (invalid_argument (bytes "uri has invalid port range"))
  | some port ↦
      ok (record {
        protocol = p.protocol;
        host = p.address;
        port = port;
        path = bytes "/" ++ p.path;
      })
]

-- An entry of getifaddrs: whether its address is of the family of IPv4 or IPv6, and what
-- getnameinfo and inet_ntop give for it, the empty text where getnameinfo fails.
pub record Interface : Type 0 where
  pub name : Text
  pub is_ip : Bool
  pub numeric_host : Option Text
  pub ip : Text
  pub host : Text

-- The loop of `getIP`.
unfoldable pub find_ip : Text → List Interface → Text
unfolding text_eq
find_ip iface [] = []
find_ip iface (i ∷ is) =
    let rest = find_ip iface is in
    let found = elim i.numeric_host as (λ x. Text) [ none ↦ rest | some host ↦ host ] in
    if i.is_ip && text_eq iface i.name then found else rest

-- getIP; none where getifaddrs fails
unfoldable pub get_ip : Option (List Interface) → Text → Text
unfolding find_ip
get_ip none iface = []
get_ip (some interfaces) iface = find_ip iface interfaces

-- The loop of `getInterface`.
unfoldable pub find_interface : Text → List Interface → Text
unfolding text_eq
find_interface hostname [] = []
find_interface hostname (i ∷ is) =
    let rest = find_interface hostname is in
    if i.is_ip && (text_eq hostname i.ip || text_eq hostname i.host) then i.name else rest

unfoldable pub get_interface : Option (List Interface) → Text → Text
unfolding find_interface
get_interface none hostname = []
get_interface (some interfaces) hostname =
    if is_empty hostname then [] else find_interface hostname interfaces
