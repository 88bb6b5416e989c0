-- ===== src/Controller/Tunnels.antt =====
-- formatTunnel and parseTunnel of pkg/controller/threat_score_watcher.go: how a blocked tunnel is
-- written into a policy's status, "<ip>/<teid in hex>". net.ParseIP and net.IP.String are of Go's
-- net package, and are parameters.
pub mod RoundTrip
use sentinel5g.Prelude.{
  ℕ, zero, suc, ◌+◌, ◌*◌, ◌/◌, ◌%◌, ◌-◌, ◌^◌, Bool, true, false, List, [], ◌∷◌, ◌++◌, Option, none,
  some, Text, codes, ltb, leb, ◌==◌, ◌&&◌, if◌then◌else◌,
}

-- An IP address, as net.IP holds it: its bytes.
abbrev pub Ip : Type 0
Ip = List ℕ

-- What the sources use of Go's net package.
pub record Addresses : Type 0 where
  pub parse_ip : Text → Option Ip
  pub ip_string : Ip → Text

abbrev pub slash : ℕ
slash = 47

unfoldable pub hex_digit : ℕ → ℕ
hex_digit d = if ltb d 10 then 48 + d else 87 + d

-- fmt's %x, most significant digit first; eight digits hold every uint32.
unfoldable pub hex : ℕ → ℕ → Text
unfolding hex_digit
hex zero n = []
hex (suc fuel) n =
    let rest = hex fuel (n / 16) in
    if ltb n 16 then hex_digit n ∷ [] else rest ++ hex_digit (n % 16) ∷ []

-- formatTunnel: "%s/%#x".
unfoldable pub format_tunnel : Text → ℕ → Text
unfolding hex
format_tunnel source_ip teid = source_ip ++ slash ∷ 48 ∷ 120 ∷ hex 8 teid

-- strings.Cut(entry, "/")
unfoldable pub cut_slash : Text → Option (Text × Text)
cut_slash [] = none
cut_slash (c ∷ cs) =
    let rest = cut_slash cs in
    if c == slash then some ([], cs) else elim rest [ none ↦ none | some (a, b) ↦ some (c ∷ a, b) ]

-- strings.TrimPrefix(s, "0x")
unfoldable pub trim_0x : Text → Text
trim_0x [] = []
trim_0x (c ∷ []) = c ∷ []
trim_0x (c ∷ d ∷ cs) = if (c == 48) && (d == 120) then cs else c ∷ d ∷ cs

-- The value of a hexadecimal digit, of either case.
unfoldable pub digit_value : ℕ → Option ℕ
digit_value c =
    if leb 48 c && leb c 57
    then some (c - 48)
    else if leb 97 c && leb c 102
    then some (c - 87)
    else if leb 65 c && leb c 70
    then some (c - 55)
    else none

unfoldable pub read_digits : ℕ → Text → Option ℕ
read_digits acc [] = some acc
read_digits acc (c ∷ cs) = elim (digit_value c) [
  | none ↦ none
  | some d ↦ read_digits (acc * 16 + d) cs
]

-- strconv.ParseUint(s, 16, 32): no digits, another character or a value past a uint32 is an error.
unfoldable pub parse_uint32_hex : Text → Option ℕ
parse_uint32_hex [] = none
parse_uint32_hex (c ∷ cs) = elim (read_digits 0 (c ∷ cs)) [
  | none ↦ none
  | some n ↦ if ltb n (2 ^ 32) then some n else none
]

-- parseTunnel
unfoldable pub parse_tunnel : Addresses → Text → Option (Ip × ℕ)
parse_tunnel net entry = elim (cut_slash entry) [
  | none ↦ none
  | some (source_ip, raw) ↦ elim (net.parse_ip source_ip) [
    | none ↦ none
    | some ip ↦ elim (parse_uint32_hex (trim_0x raw)) [ none ↦ none | some teid ↦ some (ip, teid) ]
  ]
]
