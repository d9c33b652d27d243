-- ===== src/Handlers/Forward.antt =====
-- proxy/proxy.go, the requests that `handleServerMITM` and `handleQUICMITM` send on: their URLs, and
-- `removeHopByHopHeaders`. A header is a list of names with their values, in which no name stands twice but for
-- its case.
pub mod Headers
use mathlib.Core.List.{reverse}
use sni_shaper_linux.Prelude.{
  ℕ, ◌==◌, Bool, true, false, not, ◌&&◌, ◌||◌, Option, none, some, List, [], ◌∷◌, ◌++◌, map, select,
  any, if◌then◌else◌,
}
use sni_shaper_linux.Text.{
  Bytes, codes, str_eq, is_empty, to_lower, has_prefix, trim_prefix, split, mem_str,
}

-- `EscapedPath`, with the slash in front of it.
unfoldable pub rooted_path : Bytes → Bytes
rooted_path path =
    if is_empty path || not (has_prefix path (codes "/"))
    then b'/' ∷ trim_prefix path (codes "/")
    else path

abbrev pub with_query : Bytes → Bytes → Bytes
with_query url query = if is_empty query then url else url ++ b'?' ∷ query

-- The request to the worker on the server: its path holds the key, the host and the path asked for.
unfoldable pub worker_url : Bytes → Bytes → Bytes → Bytes → Bytes → Bytes
unfolding rooted_path
worker_url server_host server_auth host path query =
    with_query
      (codes "https://" ++ server_host ++ b'/' ∷ server_auth ++ b'/' ∷ host ++ rooted_path path)
      query

unfoldable pub quic_url : Bytes → Bytes → Bytes → Bytes
unfolding rooted_path
quic_url host path query = with_query (codes "https://" ++ host ++ rooted_path path) query

abbrev pub Header : Type 0
Header = List (Bytes × List Bytes)

abbrev pub names_equal : Bytes → Bytes → Bool
names_equal a b = str_eq (to_lower a) (to_lower b)

-- `h.Get(name)`
unfoldable pub first_value : Header → Bytes → Bytes
first_value [] name = []
first_value ((n, values) ∷ h) name = elim (names_equal n name) [
  | true ↦ elim values [ [] ↦ [] | v ∷ vs ↦ v ]
  | false ↦ first_value h name
]

-- `h.Del(name)`
unfoldable pub delete_name : Bytes → Header → Header
delete_name name h = select (λ field. not (names_equal field.0 name)) h

unfoldable pub delete_all : List Bytes → Header → Header
unfolding delete_name
delete_all [] h = h
delete_all (name ∷ names) h = delete_all names (delete_name name h)

abbrev pub hop_by_hop_headers : List Bytes
hop_by_hop_headers =
    codes "Proxy-Connection"
    ∷ codes "Keep-Alive"
    ∷ codes "Proxy-Authenticate"
    ∷ codes "Proxy-Authorization"
    ∷ codes "Te"
    ∷ codes "Trailer"
    ∷ codes "Transfer-Encoding"
    ∷ []

-- `textproto.TrimString`: spaces, tabs and ends of lines are taken off.
abbrev pub is_ascii_space : ℕ → Bool
is_ascii_space c = c == 32 || (c == 9 || (c == 10 || c == 13))

abbrev pub skip_spaces : Bytes → Bytes
skip_spaces [] = []
skip_spaces (c ∷ s) = let rest = skip_spaces s in if is_ascii_space c then rest else c ∷ s

abbrev pub trim_string : Bytes → Bytes
trim_string s = reverse (skip_spaces (reverse (skip_spaces s)))

-- The names that the field `Connection` lists, but for `Upgrade`.
unfoldable pub connection_names : Bytes → List Bytes
connection_names value =
    select (λ name. not (is_empty name) && not (names_equal name (codes "Upgrade")))
      (map trim_string (split value b','))

unfoldable pub remove_hop_by_hop_headers : Header → Header
unfolding first_value delete_all connection_names
remove_hop_by_hop_headers h =
    let c = first_value h (codes "Connection") in
    delete_all hop_by_hop_headers (delete_all (if is_empty c then [] else connection_names c) h)
