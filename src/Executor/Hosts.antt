-- ===== src/Executor/Hosts.antt =====
-- pkg/executor/executor.go: the checks on texts and network hosts. `net.ParseIP`, `net.SplitHostPort`,
-- `path.Clean` and SHA-256 are Go's own, taken as a parameter.
use mathlib.Core.List.{reverse}
use tos_ai.Prelude.{
  Bool, List, Option, Result, [], all, any, drop, err, false, if◌then◌else◌, leb, length, ltb, none,
  not, ok, some, take, true, ℕ, ◌&&◌, ◌*◌, ◌+◌, ◌-◌, ◌==◌, ◌||◌, ◌∷◌,
}
use tos_ai.Prelude.Text.{Bytes, bytes_eq}

pub record Library : Type 0 where
  pub parse_ip : Bytes → Bool  -- net.ParseIP(text) != nil
  pub split_host_port : Bytes → Option (Bytes × Bytes)
  pub path_clean : Bytes → Bytes
  pub sha256 : Bytes → Bytes

-- strings.IndexByte(value, c) >= 0
abbrev pub has_byte : ℕ → Bytes → Bool
has_byte c = any (λ x. x == c)

unfoldable pub invalid_container_string : Bytes → ℕ → Bool → Bool
invalid_container_string value maximum allow_empty =
    not allow_empty && (length value == 0) || ltb maximum (length value) || has_byte 0 value

abbrev pub last_is : ℕ → Bytes → Bool
last_is c [] = false
last_is c (x ∷ []) = x == c
last_is c (x ∷ y ∷ xs) = last_is c (y ∷ xs)

abbrev pub first_is : ℕ → Bytes → Bool
first_is c [] = false
first_is c (x ∷ xs) = x == c

-- host[1:len(host)-1]
abbrev pub inner : Bytes → Bytes
inner s = take (length s - 2) (drop 1 s)

abbrev pub is_digit : ℕ → Bool
is_digit c = leb b'0' c && leb c b'9'

abbrev pub decimal : ℕ → Bytes → ℕ
decimal n [] = n
decimal n (c ∷ cs) = decimal (n * 10 + (c - 48)) cs

-- strconv.ParseUint(port, 10, 16) fails, or gives 0
unfoldable pub invalid_network_port : Bytes → Bool
invalid_network_port port =
    (length port == 0)
    || not (all is_digit port)
    || ltb 65535 (decimal 0 port)
    || (decimal 0 port == 0)

abbrev pub is_label_character : ℕ → Bool
is_label_character c =
    leb b'a' c && leb c b'z' || leb b'A' c && leb c b'Z' || is_digit c || (c == b'-')

-- One label of a host name, as the loop of `invalidDNSHostname` takes it.
unfoldable pub invalid_label : Bytes → Bool
invalid_label label =
    (length label == 0)
    || ltb 63 (length label)
    || first_is b'-' label
    || last_is b'-' label
    || not (all is_label_character label)

-- strings.Split(text, "."); the first argument is the label that is being read, reversed.
unfoldable pub split_dots : Bytes → Bytes → List Bytes
split_dots label [] = reverse label ∷ []
split_dots label (c ∷ cs) =
    let here = reverse label ∷ split_dots [] cs in
    let longer = split_dots (c ∷ label) cs in if c == b'.' then here else longer

unfoldable pub invalid_dns_hostname : Bytes → Bool
invalid_dns_hostname name =
    (length name == 0) || ltb 253 (length name) || any invalid_label (split_dots [] name)

-- values contains target
abbrev pub contains_text : List Bytes → Bytes → Bool
contains_text values target = any (λ v. bytes_eq v target) values

pub data HostError : Type 0 where
  malformed_host duplicate_host : HostError

module _ (lib : Library) where
  unfoldable pub invalid_host_with_port : Bytes → Bool
  invalid_host_with_port host = elim (lib.split_host_port host) [
    | none ↦ true
    | some (hostname, port) ↦
        invalid_network_port port || not (lib.parse_ip hostname) && invalid_dns_hostname hostname
  ]

  unfoldable pub invalid_network_host : Bytes → ℕ → Bool
  invalid_network_host host maximum =
      if invalid_container_string host maximum false
      then true
      else if lib.parse_ip host
      then false
      else if first_is b'[' host && last_is b']' host
      then not (lib.parse_ip (inner host))
      else if has_byte b':' host
      then invalid_host_with_port host
      else invalid_dns_hostname host

  -- The loop of `validateNetworkHosts`, with the hosts seen.
  unfoldable pub check_hosts : List Bytes → List Bytes → ℕ → Result HostError (Unit {0})
  check_hosts seen [] maximum = ok tt
  check_hosts seen (host ∷ rest) maximum =
      let others = check_hosts (host ∷ seen) rest maximum in
      if invalid_network_host host maximum
      then err malformed_host
      else if contains_text seen host
      then err duplicate_host
      else others

  unfoldable pub validate_network_hosts : List Bytes → ℕ → Result HostError (Unit {0})
  validate_network_hosts hosts maximum = check_hosts [] hosts maximum
