-- ===== src/Names/Hosts.antt =====
-- core/util.go: StripPort, ResolvedIpv4OrVerbatim and GetHostNameFromApiUrl, and
-- core/util_json.go: IpPortToJsonString.
use truenas_incus_ctl.Base.{
  ℕ, suc, Bool, true, ◌&&◌, ◌||◌, List, [], ◌∷◌, ◌++◌, Option, none, some, ℤ, Str, codes, split,
  join, contains_str, is_empty, index_of, take, drop, length, eqb, leb, ltb, if◌then◌else◌,
}
use truenas_incus_ctl.Base.Decimal.{atoi, itoa}

-- All parts but the last.
unfoldable pub but_last : List Str → List Str
but_last [] = []
but_last (p ∷ ps) = elim ps as (λ _. List Str) [ [] ↦ [] | q ∷ qs ↦ p ∷ but_last ps ]

unfoldable pub strip_port : Str → Str
unfolding but_last
strip_port hostname =
    let parts = split b':' hostname in
    if eqb (length parts) 1 then hostname else join (codes ":") (but_last parts)

-- The loop over the characters: the dots and the digits since the last one, when it ends.
unfoldable pub scan_ipv4 : ℕ → ℕ → Str → ℕ × ℕ
scan_ipv4 dots digits [] = (dots, digits)
scan_ipv4 dots digits (c ∷ s) =
    let past_dot = scan_ipv4 (suc dots) 0 s in
    let past_digit = scan_ipv4 dots (suc digits) s in
    if eqb c b'.'
    then if eqb digits 0 then (dots, digits) else past_dot
    else if leb b'0' c && leb c b'9'
    then past_digit
    else (dots, digits)

-- `lookup_ip` is the text of the first address that `net.LookupIP` gives, none if that fails.
unfoldable pub resolved_ipv4_or_verbatim : (Str → Option Str) → Str → Str
unfolding scan_ipv4
resolved_ipv4_or_verbatim lookup_ip hostname =
    let (dots, digits) = scan_ipv4 0 0 hostname in
    if eqb dots 3 && ltb 0 digits
    then hostname
    else elim (lookup_ip hostname) [ none ↦ hostname | some ip ↦ ip ]

-- `parsed` is the host name and the port of `url.Parse`, none if that fails.
unfoldable pub get_host_name_from_api_url : (Str → Option (Str × Str)) → Str → Str
get_host_name_from_api_url parsed url =
    if contains_str url (codes "://")
    then elim (parsed url) [
      | none ↦ url
      | some (host, port) ↦ if is_empty port then host else host ++ b':' ∷ port
    ]
    else url

-- The host and the port of "host:port", with the defaults for what is missing.
unfoldable pub port_after : ℤ → Str → ℤ
port_after default_port s = elim (atoi s) [ none ↦ default_port | some n ↦ n ]

unfoldable pub host_and_port : Str → Str → ℤ → Str × ℤ
unfolding port_after
host_and_port s default_hostname default_port = elim (index_of b':' s) [
  | none ↦ (s, default_port)
  | some i ↦
      (if ltb 0 i then take i s else default_hostname, port_after default_port (drop (suc i) s))
]

abbrev pub is_json_text : Str → Bool
is_json_text [] = true
is_json_text (c ∷ s) = eqb c b'[' || eqb c b'{'

unfoldable pub ip_port_to_json_string : (Str → Option Str) → Str → Str → ℤ → Str
unfolding host_and_port resolved_ipv4_or_verbatim
ip_port_to_json_string lookup_ip s default_hostname default_port =
    let (host, port) = host_and_port s default_hostname default_port in
    if is_json_text s
    then s
    else codes "[{\"ip\":\""
      ++ (resolved_ipv4_or_verbatim lookup_ip host
          ++ (codes "\",\"port\":" ++ (itoa port ++ codes "}]")))
