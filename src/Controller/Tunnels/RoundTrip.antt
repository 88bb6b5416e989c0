-- ===== src/Controller/Tunnels/RoundTrip.antt =====
-- A tunnel written into a status is read back as it was (formatTunnel and parseTunnel of
-- pkg/controller/threat_score_watcher.go).
use sentinel5g.Prelude.{
  ℕ, zero, suc, ◌+◌, ◌*◌, ◌/◌, ◌%◌, ◌^◌, ◌<◌, ◌≡◌, ◌≢◌, refl, ◌∙◌, false, [], ◌∷◌, ◌++◌, some, Text,
  ltb, arith, inl, inr, Option-cases, lt→ltb, dec_lt, ap,
}
use native.Mathlib.Nat.{pow-suc}
use sentinel5g.Controller.Tunnels.{
  Ip, Addresses, slash, hex_digit, hex, format_tunnel, cut_slash, trim_0x, digit_value, read_digits,
  parse_uint32_hex, parse_tunnel,
}

-- No byte of the text is a slash.
abbrev pub NoSlash : Text → Type 0
NoSlash [] = Unit {0}
NoSlash (c ∷ cs) = (c ≢ slash) × NoSlash cs

digit_value-hex_digit : (d : ℕ) → d < 16 → digit_value (hex_digit d) ≡ some d
unfolding digit_value hex_digit
digit_value-hex_digit d h = ground arith

read_digits-append :
    (acc : ℕ) (xs : Text) (n d : ℕ)
    → d < 16
    → read_digits acc xs ≡ some n
    → read_digits acc (xs ++ hex_digit d ∷ []) ≡ some (n * 16 + d)
unfolding read_digits
read_digits-append acc [] n d h e = ground (arith, e, digit_value-hex_digit d h)
read_digits-append acc (x ∷ xs) n d h e = elim (Option-cases (digit_value x)) [
  | inl bad ↦ ground (arith, e, bad)
  | inr (v, good) ↦
      rw (good, read_digits) (read_digits-append (acc * 16 + v) xs n d h (ground (arith, e, good)))
]

small_digit : (n : ℕ) → n < 16 → read_digits 0 (hex_digit n ∷ []) ≡ some n
unfolding read_digits
small_digit n h = ground (arith, digit_value-hex_digit n h)

ltb-false : (a b : ℕ) → ¬ (a < b) → ltb a b ≡ false
ltb-false a b h = ground (arith, h)

-- As many digits as the fuel suffice below the same power of 16.
read_digits-hex : (fuel n : ℕ) → n < 16 ^ suc fuel → read_digits 0 (hex (suc fuel) n) ≡ some n
unfolding hex
read_digits-hex zero n h = rw (lt→ltb n 16 (omega arith)) (small_digit n (omega arith))
read_digits-hex (suc fuel) n h = elim (dec_lt n 16) [
  | yes lt ↦ rw (lt→ltb n 16 lt) (small_digit n lt)
  | no ge ↦
      let rest = read_digits-hex fuel (n / 16) (omega (arith, pow-suc 16 (suc fuel))) in
      rw (ltb-false n 16 ge) (
        read_digits-append 0 (hex (suc fuel) (n / 16)) (n / 16) (n % 16) (omega arith) rest
        ∙ ap some (omega arith))
]

hex_nonempty : (fuel n : ℕ) → hex (suc fuel) n ≢ []
unfolding hex
hex_nonempty fuel n = ground (arith, last (hex fuel (n / 16)) (hex_digit (n % 16)))
  where
    last : (xs : Text) (c : ℕ) → xs ++ c ∷ [] ≢ []
    last [] c = λ e. cc
    last (x ∷ xs) c = λ e. cc

parse_digits :
    (xs : Text) (n : ℕ)
    → xs ≢ []
    → read_digits 0 xs ≡ some n
    → n < 2 ^ 32
    → parse_uint32_hex xs ≡ some n
unfolding parse_uint32_hex
parse_digits [] n ne e h = absurd (ne refl)
parse_digits (x ∷ xs) n ne e h = rw (e, parse_uint32_hex) (ground (arith, h))

cut_slash-append : (xs ys : Text) → NoSlash xs → cut_slash (xs ++ slash ∷ ys) ≡ some (xs, ys)
unfolding cut_slash
cut_slash-append [] ys h = refl
cut_slash-append (x ∷ xs) ys h = ground (arith, h.0, cut_slash-append xs ys h.1)

-- Written and read again, a blocked tunnel is the address that net.ParseIP makes of its source, and
-- the same TEID, for every TEID and every source that it parses and that holds no slash.
pub parse_tunnel-format_tunnel :
    (net : Addresses) (source_ip : Text) (ip : Ip) (teid : ℕ)
    → net.parse_ip source_ip ≡ some ip
    → NoSlash source_ip
    → teid < 2 ^ 32
    → parse_tunnel net (format_tunnel source_ip teid) ≡ some (ip, teid)
unfolding parse_tunnel format_tunnel
parse_tunnel-format_tunnel net source_ip ip teid parsed clean small =
    let digits = hex 8 teid in
    let cut = cut_slash-append source_ip (48 ∷ 120 ∷ digits) clean in
    let trimmed : trim_0x (48 ∷ 120 ∷ digits) ≡ digits = unfold trim_0x in refl in
    let read =
      parse_digits digits teid (hex_nonempty 7 teid) (read_digits-hex 7 teid small) small in
    ground (arith, cut, parsed, trimmed, read)
