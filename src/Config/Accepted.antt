-- ===== src/Config/Accepted.antt =====
-- What a configuration that Load of pkg/config/config.go accepts is good for: the detectors and the
-- connection that cmd/operator/main.go builds from it.
use sentinel5g.Prelude.{
  ℕ, ◌+◌, ◌==◌, ◌≤◌, ◌<◌, ◌≡◌, ◌≢◌, ◌⊎◌, inl, inr, refl, arith, ap, sym, ◌∙◌, Bool, true, false,
  not, ◌&&◌, ◌||◌, List, [], ◌∷◌, ◌++◌, Option, none, some, Text, codes, text_discrete, ite,
  if◌then◌else◌, ltb, Bool-cases, subst,
}
use sentinel5g.Prelude.Int.{ℤ, pos, leb_ℤ}
use sentinel5g.Prelude.Map.{find}
use sentinel5g.Events.{gtpu, NormalizedEvent, Floats}
use sentinel5g.Config.{
  OperatorConfig, Result, Parsers, Environment, parsed_or, parse_int_env, non_negative, non_empty,
  nats_has_credentials, guarded, is_zero,
}
use sentinel5g.Config.Load.{Parsed, and_then, parse_all, build, load}
use sentinel5g.Bus.{
  ConnectOption, user_credentials, user_info, client_cert, root_cas, connect_options, login_options,
  tls_options,
}
use sentinel5g.Operator.{bus_config, tunnel_detector, source_detector}
use sentinel5g.Detect.TunnelFlood.{TunnelId, new_detector, claim, tunnel_score}
use sentinel5g.Detect.TunnelFlood
use sentinel5g.Detect.SourceFlood
use sentinel5g.Detect.SourceFlood.Verdict.{IsArmed}
use sentinel5g.Detect.TunnelFlood.Verdict.{IsFlood, evaluate-eq-tunnel_score}

and_then-inr :
    {A B : Type 0} (r : Result A) (next : A → Result B) (b : B)
    → and_then r next ≡ inr b
    → (a : A) × (r ≡ inr a) × (next a ≡ inr b)
unfolding and_then
and_then-inr (inl e) next b h = absurd (cc)
and_then-inr (inr a) next b h = (a, refl, h)

-- What the guards leave: the threshold is neither below zero nor above one in the floats' order, an
-- enabled detector can fire, the window is positive, and the bus has credentials or the opt-in.
pub record IsAccepted {F : Type 0} (ps : Parsers F) (cfg : OperatorConfig F) : Type 0 where
  pub not_below : ps.lt cfg.threat_score_threshold ps.zero_float ≡ false
  pub not_above : ps.lt ps.one_float cfg.threat_score_threshold ≡ false
  pub tunnels : cfg.gtpu_tunnel_flood_enabled ≡ true → 0 < cfg.gtpu_tunnel_flood_pps
  pub sources :
      cfg.gtpu_source_flood_enabled ≡ true
      → (0 < cfg.gtpu_source_flood_pps) ⊎ (is_zero cfg.gtpu_source_flood_distinct_tunnels ≡ false)
  pub window : leb_ℤ cfg.gtpu_source_flood_window (pos 0) ≡ false
  pub credentials : (cfg.nats_allow_unauthenticated ≡ true) ⊎ (nats_has_credentials cfg ≡ true)

guarded-IsAccepted :
    {F : Type 0} (ps : Parsers F) (cfg cfg' : OperatorConfig F)
    → guarded ps cfg ≡ inr cfg'
    → (cfg ≡ cfg') × IsAccepted ps cfg
unfolding guarded
guarded-IsAccepted ps cfg cfg' h = (
  ground (arith, h),
  record {
    not_below = ground (arith, h);
    not_above = ground (arith, h);
    tunnels = λ e. ground (arith, h, e);
    sources = λ e. ground (arith, h, e);
    window = ground (arith, h);
    credentials = ground (arith, h);
  },
)

inr_injective : {A : Type 0} (a b : A) → ◌≡◌ {A = Result A} (inr a) (inr b) → a ≡ b
inr_injective a b h = cc

abbrev distinct_variable : Text
distinct_variable = codes "GTPU_SOURCE_FLOOD_DISTINCT_TUNNELS"

-- All that the result can be satisfies the predicate.
abbrev Yields : {A : Type 0} → (A → Type 0) → Result A → Type 0
Yields {A} q r = (a : A) → r ≡ inr a → q a

and_then-Yields :
    {A B : Type 0} {q : B → Type 0} (r : Result A) (next : A → Result B)
    → ((a : A) → r ≡ inr a → Yields q (next a))
    → Yields q (and_then r next)
unfolding and_then
and_then-Yields (inl e) next h b k = absurd (cc)
and_then-Yields (inr a) next h b k = h a refl b k

-- The variables are parsed before anything else, the number of distinct tunnels among them.
parse_all-distinct :
    {F : Type 0} (ps : Parsers F) (env : Environment)
    → Yields
        (λ (p : Parsed F).
          parse_int_env ps env distinct_variable (pos 2048) ≡ inr p.source_distinct)
        (parse_all ps env)
unfolding parse_all
parse_all-distinct ps env = and_then-Yields _ _ (λ a0 _. and_then-Yields _ _ (λ a1 _.
    and_then-Yields _ _ (λ a2 _. and_then-Yields _ _ (λ a3 _. and_then-Yields _ _ (λ a4 _.
      and_then-Yields _ _ (λ a5 _. and_then-Yields _ _ (λ a6 _. and_then-Yields _ _ (λ a7 _.
        and_then-Yields _ _ (λ a8 _. and_then-Yields _ _ (λ distinct got.
          and_then-Yields _ _ (λ a10 _. and_then-Yields _ _ (λ a11 _. and_then-Yields _ _ (λ a12 _.
            and_then-Yields _ _ (λ a13 _. and_then-Yields _ _ (λ a14 _.
              and_then-Yields _ _ (λ a15 _. and_then-Yields _ _ (λ a16 _.
                and_then-Yields _ _ (λ a17 _. and_then-Yields _ _ (λ a18 _. λ p e.
                  got ∙ ap (λ q. inr (q.source_distinct)) (inr_injective _ p e))))))))))))))))))))

parsed_or-Yields :
    {A : Type 0} {q : A → Type 0} (parse : Text → Option A) (key : Text) (fallback : A)
    (o : Option Text)
    → q fallback
    → ((v : Text) (a : A) → parse v ≡ some a → q a)
    → Yields q (parsed_or parse key fallback o)
unfolding parsed_or
parsed_or-Yields {q = q} parse key fallback none start each a h =
    subst q (inr_injective fallback a h) start
parsed_or-Yields parse key fallback (some v) start each a h = each v a (ground (arith, h))

non_negative-some : (o : Option ℤ) (n : ℤ) → non_negative o ≡ some n → leb_ℤ (pos 0) n ≡ true
unfolding non_negative
non_negative-some none n h = absurd (cc)
non_negative-some (some m) n h = ground (arith, h)

parse_int-positive :
    {F : Type 0} (ps : Parsers F) (env : Environment) (key : Text) (fallback n : ℤ)
    → leb_ℤ (pos 0) fallback ≡ true
    → parse_int_env ps env key fallback ≡ inr n
    → leb_ℤ (pos 0) n ≡ true
unfolding parse_int_env
parse_int-positive ps env key fallback n start h =
    parsed_or-Yields {q = λ m. leb_ℤ (pos 0) m ≡ true} (λ v. non_negative (ps.atoi v)) key fallback
      (non_empty (env key)) start (λ v m e. non_negative-some (ps.atoi v) m e) n h

-- A new detector has seen no tunnel.
first_claim :
    {F : Type 0} (cfg : OperatorConfig F) (id : TunnelId) (now : ℕ)
    → (claim (tunnel_detector cfg) id now).1 ≡ true
unfolding claim tunnel_detector new_detector find sentinel5g.Prelude.Fifo.empty
first_claim cfg id now = refl

tunnel_detector-IsFlood :
    {F : Type 0} (cfg : OperatorConfig F) (evt : NormalizedEvent)
    → cfg.gtpu_tunnel_flood_enabled ≡ true
    → 0 < cfg.gtpu_tunnel_flood_pps
    → evt.protocol ≡ gtpu
    → evt.teid ≢ 0
    → cfg.gtpu_tunnel_flood_pps ≤ evt.tunnel_rate_per_second
    → IsFlood (tunnel_detector cfg).cfg evt
unfolding tunnel_detector new_detector
tunnel_detector-IsFlood cfg evt on some_pps proto teid fast = record {
  enabled = on;
  threshold = some_pps;
  tunnelled = proto;
  identified = teid;
  fast = fast;
}

source_detector-IsArmed :
    {F : Type 0} (cfg : OperatorConfig F)
    → cfg.gtpu_source_flood_enabled ≡ true
    → (0 < cfg.gtpu_source_flood_pps) ⊎ (is_zero cfg.gtpu_source_flood_distinct_tunnels ≡ false)
    → leb_ℤ (pos 0) cfg.gtpu_source_flood_distinct_tunnels ≡ true
    → IsArmed (source_detector cfg)
unfolding source_detector SourceFlood.new_detector is_zero
source_detector-IsArmed cfg on (inl e) h = (on, inl e)
source_detector-IsArmed cfg on (inr e) h = (on, inr (ground (arith, e, h)))

module _ {F : Type 0} (ps : Parsers F) (env : Environment) (cfg : OperatorConfig F) where
  load-IsAccepted :
      load ps env ≡ inr cfg
      → IsAccepted ps cfg × (leb_ℤ (pos 0) cfg.gtpu_source_flood_distinct_tunnels ≡ true)
  unfolding load build
  load-IsAccepted h =
      let (p, parsed, accepted) = and_then-inr _ _ cfg h in
      let (same, ok) = guarded-IsAccepted ps (build ps env p) cfg accepted in
      (
        subst (IsAccepted ps) same ok,
        subst (λ (c : OperatorConfig F). leb_ℤ (pos 0) c.gtpu_source_flood_distinct_tunnels ≡ true)
            same
            (parse_int-positive ps env distinct_variable (pos 2048) p.source_distinct refl
              (parse_all-distinct ps env p parsed)),
      )

  -- The per-tunnel detector that the operator builds from a configuration that Load accepts, where it
  -- is enabled, reports at once any GTP-U packet with a TEID whose tunnel is at the threshold or above;
  -- the threshold is not zero.
  pub load_arms_tunnels :
      (fl : Floats F) (evt : NormalizedEvent) (now : ℕ)
      → load ps env ≡ inr cfg
      → cfg.gtpu_tunnel_flood_enabled ≡ true
      → evt.protocol ≡ gtpu
      → evt.teid ≢ 0
      → cfg.gtpu_tunnel_flood_pps ≤ evt.tunnel_rate_per_second
      → ((TunnelFlood.evaluate fl (tunnel_detector cfg) evt now).1 ≡ some (tunnel_score fl evt now))
        × (0 < cfg.gtpu_tunnel_flood_pps)
  load_arms_tunnels fl evt now h on proto teid fast =
      let positive = (load-IsAccepted h).0.tunnels on in
      (
        evaluate-eq-tunnel_score fl (tunnel_detector cfg) evt now
            (tunnel_detector-IsFlood cfg evt on positive proto teid fast) (first_claim cfg _ now),
        positive,
      )

  -- The per-source detector, where it is enabled, has a threshold.
  pub load_arms_sources :
      load ps env ≡ inr cfg → cfg.gtpu_source_flood_enabled ≡ true → IsArmed (source_detector cfg)
  load_arms_sources h on =
      let (ok, positive) = load-IsAccepted h in
      source_detector-IsArmed cfg on (ok.sources on) positive

-- The options that say who the client is, or whom it trusts.
unfoldable pub authenticates : List ConnectOption → Bool
authenticates [] = false
authenticates (user_credentials f ∷ os) = true
authenticates (user_info u p ∷ os) = true
authenticates (client_cert c k ∷ os) = true
authenticates (root_cas f ∷ os) = true
authenticates (_ ∷ os) = authenticates os

credentials_are_options :
    {F : Type 0} (cfg : OperatorConfig F)
    → nats_has_credentials cfg ≡ true
    → authenticates (connect_options (bus_config cfg)) ≡ true
unfolding authenticates nats_has_credentials connect_options login_options tls_options bus_config
credentials_are_options cfg h = ground (arith, h)

-- A configuration that Load accepts without the opt-in connects with at least one of: a credentials
-- file, a user's name, a client certificate, a set of root certificates.
pub load-authenticates :
    {F : Type 0} (ps : Parsers F) (env : Environment) (cfg : OperatorConfig F)
    → load ps env ≡ inr cfg
    → cfg.nats_allow_unauthenticated ≡ false
    → authenticates (connect_options (bus_config cfg)) ≡ true
load-authenticates ps env cfg h off = elim (load-IsAccepted ps env cfg h).0.credentials [
  | inl on ↦ absurd (cc)
  | inr has ↦ credentials_are_options cfg has
]
