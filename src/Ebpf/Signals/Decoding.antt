-- ===== src/Ebpf/Signals/Decoding.antt =====
-- The decoders of pkg/ebpf/loader_linux.go, by offsets, against the layouts of the records.
use sentinel5g.Prelude.{
  ℕ, suc, zero, ◌+◌, ◌/◌, ◌^◌, ◌<◌, ◌≡◌, refl, arith, ap, ◌∙◌, sym, false, List, [], ◌∷◌, ◌++◌,
  Option, some, ltb, length, length-append, append_assoc,
}
use sentinel5g.Ebpf.Interface.{Ip}
use sentinel5g.Ebpf.Loader.{le_uint32, le_bytes, ipv4_from_u32}
use sentinel5g.Ebpf.Signals.{
  SignalingEvent, from, first, le_at, decode_signaling_event, decode_signaling_event_v6,
}
use sentinel5g.Ebpf.Signals.Layout.{
  RawSignalingEvent, tail_bytes, raw_bytes, raw_bytes_v6, FitsTail, event_of,
}

pub le_uint32-le_bytes : (k n : ℕ) → n < 256 ^ k → le_uint32 (le_bytes k n) ≡ n
unfolding le_uint32 le_bytes
le_uint32-le_bytes zero n h = omega arith
le_uint32-le_bytes (suc k) n h =
    let smaller : n / 256 < 256 ^ k = omega arith in
    omega (arith, le_uint32-le_bytes k (n / 256) smaller)

-- The numbers after the addresses are read from an offset on.
abbrev ReadsTail : {A : Type 0} → ℕ → List ℕ → RawSignalingEvent A → Type 0
ReadsTail i sample raw =
    (le_at 2 i sample ≡ raw.dest_port)
    × (le_at 2 (i + 2) sample ≡ raw.payload_size)
    × (le_at 1 (i + 4) sample ≡ raw.protocol)
    × (le_at 1 (i + 5) sample ≡ raw.malformed)
    × (le_at 2 (i + 6) sample ≡ raw.vlan_id)
    × (le_at 4 (i + 8) sample ≡ raw.teid)
    × (le_at 4 (i + 12) sample ≡ raw.tunnel_rate)

decode_signaling_event-reads :
    (boot : ℕ) (raw : RawSignalingEvent ℕ) (sample : List ℕ)
    → ltb (length sample) 32 ≡ false
    → le_at 8 0 sample ≡ raw.timestamp_ns
    → le_at 4 8 sample ≡ raw.saddr
    → le_at 4 12 sample ≡ raw.daddr
    → ReadsTail 16 sample raw
    → decode_signaling_event boot sample ≡ some (event_of ipv4_from_u32 boot raw)
unfolding decode_signaling_event
decode_signaling_event-reads boot raw sample long a b c (d, e, f, g, h, i, j) =
    rw (long, a, b, c, d, e, f, g, h, i, j) refl

decode_signaling_event_v6-reads :
    (boot : ℕ) (raw : RawSignalingEvent Ip) (sample : List ℕ)
    → ltb (length sample) 56 ≡ false
    → le_at 8 0 sample ≡ raw.timestamp_ns
    → first 16 (from 8 sample) ≡ raw.saddr
    → first 16 (from 24 sample) ≡ raw.daddr
    → ReadsTail 40 sample raw
    → decode_signaling_event_v6 boot sample ≡ some (event_of (λ ip. ip) boot raw)
unfolding decode_signaling_event_v6
decode_signaling_event_v6-reads boot raw sample long a b c (d, e, f, g, h, i, j) =
    rw (long, a, b, c, d, e, f, g, h, i, j) refl

-- The record of an IPv4 packet.
pub decode-raw_bytes :
    (boot : ℕ) (raw : RawSignalingEvent ℕ) (rest : List ℕ)
    → FitsTail raw
    → raw.saddr < 2 ^ 32
    → raw.daddr < 2 ^ 32
    → decode_signaling_event boot (raw_bytes raw ++ rest) ≡ some (event_of ipv4_from_u32 boot raw)
unfolding raw_bytes tail_bytes le_at first from le_bytes
decode-raw_bytes boot raw rest (ft, fp, fs, fpr, fm, fv, fte, ftr) src dst =
    decode_signaling_event-reads boot raw (raw_bytes raw ++ rest) (ground arith)
      (le_uint32-le_bytes 8 raw.timestamp_ns ft) (le_uint32-le_bytes 4 raw.saddr src)
      (le_uint32-le_bytes 4 raw.daddr dst)
      (
        le_uint32-le_bytes 2 raw.dest_port fp,
        le_uint32-le_bytes 2 raw.payload_size fs,
        le_uint32-le_bytes 1 raw.protocol fpr,
        le_uint32-le_bytes 1 raw.malformed fm,
        le_uint32-le_bytes 2 raw.vlan_id fv,
        le_uint32-le_bytes 4 raw.teid fte,
        le_uint32-le_bytes 4 raw.tunnel_rate ftr,
      )

-- Reading past a list of a known length.
from-append : (xs ys : List ℕ) (i : ℕ) → from (length xs + i) (xs ++ ys) ≡ from i ys
unfolding from
from-append [] ys i = ap (λ j. from j ys) (omega arith)
from-append (x ∷ xs) ys i =
    let e : suc (length xs) + i ≡ suc (length xs + i) = omega arith in
    ap (λ j. from j (x ∷ xs ++ ys)) e ∙ from-append xs ys i

first-append : (xs ys : List ℕ) → first (length xs) (xs ++ ys) ≡ xs
unfolding first
first-append [] ys = refl
first-append (x ∷ xs) ys = ap (λ zs. x ∷ zs) (first-append xs ys)

past : (xs ys : List ℕ) (n i : ℕ) → length xs ≡ n → from (n + i) (xs ++ ys) ≡ from i ys
past xs ys n i e = ap (λ m. from (m + i) (xs ++ ys)) (sym e) ∙ from-append xs ys i

-- What follows two addresses of sixteen bytes each.
past_both :
    (a b ys : List ℕ) (i : ℕ)
    → length a ≡ 16
    → length b ≡ 16
    → from (32 + i) (a ++ (b ++ ys)) ≡ from i ys
past_both a b ys i ea eb =
    let e : 32 + i ≡ 16 + (16 + i) = omega arith in
    ap (λ j. from j (a ++ (b ++ ys))) e ∙ past a (b ++ ys) 16 (16 + i) ea ∙ past b ys 16 i eb

raw_bytes_v6-append :
    (raw : RawSignalingEvent Ip) (rest : List ℕ)
    → raw_bytes_v6 raw ++ rest
      ≡ le_bytes 8 raw.timestamp_ns ++ (raw.saddr ++ (raw.daddr ++ (tail_bytes raw ++ rest)))
unfolding raw_bytes_v6 le_bytes
raw_bytes_v6-append raw rest =
    ap (λ l. le_bytes 8 raw.timestamp_ns ++ l)
      (append_assoc raw.saddr (raw.daddr ++ tail_bytes raw) rest
        ∙ ap (λ l. raw.saddr ++ l) (append_assoc raw.daddr (tail_bytes raw) rest))

v6_long :
    (a b ys zs : List ℕ) (t : ℕ)
    → length a ≡ 16
    → length b ≡ 16
    → length ys ≡ 16
    → ltb (length (le_bytes 8 t ++ (a ++ (b ++ (ys ++ zs))))) 56 ≡ false
unfolding le_bytes
v6_long a b ys zs t ea eb ey = ground (
  arith,
  ea,
  eb,
  ey,
  length-append a (b ++ (ys ++ zs)),
  length-append b (ys ++ zs),
  length-append ys zs,
)

-- The record of an IPv6 packet.
decode-raw_bytes_v6 :
    (boot : ℕ) (raw : RawSignalingEvent Ip) (rest : List ℕ)
    → FitsTail raw
    → length raw.saddr ≡ 16
    → length raw.daddr ≡ 16
    → decode_signaling_event_v6 boot (raw_bytes_v6 raw ++ rest)
      ≡ some (event_of (λ ip. ip) boot raw)
unfolding le_at first from le_bytes tail_bytes
decode-raw_bytes_v6 boot raw rest (ft, fp, fs, fpr, fm, fv, fte, ftr) src dst =
    let rear = raw.daddr ++ (tail_bytes raw ++ rest) in
    let past_all = λ (i : ℕ). past_both raw.saddr raw.daddr (tail_bytes raw ++ rest) i src dst in
    rw raw_bytes_v6-append (
      decode_signaling_event_v6-reads boot raw (le_bytes 8 raw.timestamp_ns ++ (raw.saddr ++ rear))
        (v6_long raw.saddr raw.daddr (tail_bytes raw) rest raw.timestamp_ns src dst refl)
        (le_uint32-le_bytes 8 raw.timestamp_ns ft)
        (ap (λ n. first n (raw.saddr ++ rear)) (sym src) ∙ first-append raw.saddr rear)
        (ap (first 16) (past raw.saddr rear 16 0 src)
          ∙ ap (λ n. first n rear) (sym dst)
          ∙ first-append raw.daddr (tail_bytes raw ++ rest))
        (
          ap (λ l. le_uint32 (first 2 l)) (past_all 0) ∙ le_uint32-le_bytes 2 raw.dest_port fp,
          ap (λ l. le_uint32 (first 2 l)) (past_all 2) ∙ le_uint32-le_bytes 2 raw.payload_size fs,
          ap (λ l. le_uint32 (first 1 l)) (past_all 4) ∙ le_uint32-le_bytes 1 raw.protocol fpr,
          ap (λ l. le_uint32 (first 1 l)) (past_all 5) ∙ le_uint32-le_bytes 1 raw.malformed fm,
          ap (λ l. le_uint32 (first 2 l)) (past_all 6) ∙ le_uint32-le_bytes 2 raw.vlan_id fv,
          ap (λ l. le_uint32 (first 4 l)) (past_all 8) ∙ le_uint32-le_bytes 4 raw.teid fte,
          ap (λ l. le_uint32 (first 4 l)) (past_all 12) ∙ le_uint32-le_bytes 4 raw.tunnel_rate ftr,
        ))

-- A record of either ring buffer.
pub data RawRecord : Type 0 where
  ipv4_record : RawSignalingEvent ℕ → RawRecord
  ipv6_record : RawSignalingEvent Ip → RawRecord

abbrev pub bytes_of : RawRecord → List ℕ
bytes_of (ipv4_record raw) = raw_bytes raw
bytes_of (ipv6_record raw) = raw_bytes_v6 raw

-- Each field fits its width.
abbrev pub Fits : RawRecord → Type 0
Fits (ipv4_record raw) = FitsTail raw × (raw.saddr < 2 ^ 32) × (raw.daddr < 2 ^ 32)
Fits (ipv6_record raw) = FitsTail raw × (length raw.saddr ≡ 16) × (length raw.daddr ≡ 16)

-- The decoder of the ring buffer that the record is in.
abbrev pub decoded : RawRecord → ℕ → List ℕ → Option SignalingEvent
decoded (ipv4_record raw) = decode_signaling_event
decoded (ipv6_record raw) = decode_signaling_event_v6

abbrev pub meaning : ℕ → RawRecord → SignalingEvent
meaning boot (ipv4_record raw) = event_of ipv4_from_u32 boot raw
meaning boot (ipv6_record raw) = event_of (λ ip. ip) boot raw

-- A record whose fields fit their widths, laid out in memory as its Go mirror struct declares it,
-- whatever bytes follow it, is decoded to the event with these fields: of either address family, no
-- field is lost or read in another's place.
pub decoded-bytes_of :
    (boot : ℕ) (r : RawRecord) (rest : List ℕ)
    → Fits r
    → decoded r boot (bytes_of r ++ rest) ≡ some (meaning boot r)
decoded-bytes_of boot (ipv4_record raw) rest (fits, src, dst) =
    decode-raw_bytes boot raw rest fits src dst
decoded-bytes_of boot (ipv6_record raw) rest (fits, src, dst) =
    decode-raw_bytes_v6 boot raw rest fits src dst
