-- ===== src/Controller/Drift/Whole.antt =====
-- BlocklistReconciler.Sync (pkg/controller/blocklist_reconciler.go) as a whole: both families in one
-- kernel, with the inspector that reads it and the keys that one sync hands to the next.
use sentinel5g.Prelude.{
  ℕ, ◌≡◌, ◌≢◌, inl, inr, ◌↔◌, Bool, true, false, List, [], ◌∷◌, ◌++◌, Option, none, some, Text,
  codes, text_discrete, ite, refl, arith, sym, ap, subst, ◌∙◌, Option-cases, Bool-cases,
  if◌then◌else◌, ◌==◌,
}
use sentinel5g.Prelude.Map.{Map, find, put, find-put}
use sentinel5g.Ebpf.Interface.{Ip, BlocklistUpdater}
use sentinel5g.Controller.Api.{Policy}
use sentinel5g.Controller.Tunnels.{Addresses, format_tunnel, parse_tunnel}
use sentinel5g.Controller.Watcher.{contains}
use sentinel5g.Controller.Drift.{
  BlockedTunnel, Inspector, Family, Progress, Synced, sorted_keys, add_one, remove_one, each,
  correct, start, desired_ips, desired_tunnels, desired_enforcement, actual_ips, actual_tunnels,
  sync,
}
use sentinel5g.Controller.Drift.Half.{Lawful}
use sentinel5g.Controller.Drift.Convergence.{each-keeps}

-- Each entry of a map stands under the text that is its key.
abbrev pub IsKeyedBy : {A : Type 0} → (A → Text) → Map Text A → Type 0
IsKeyedBy {A = A} key m = (x : Text) (a : A) → find text_discrete x m ≡ some a → key a ≡ x

put-IsKeyedBy :
    {A : Type 0} (key : A → Text) (a : A) (m : Map Text A)
    → IsKeyedBy key m
    → IsKeyedBy key (put text_discrete (key a) a m)
put-IsKeyedBy key a m h x b e =
    let found : ite (text_discrete (key a) x) (some a) (find text_discrete x m) ≡ some b =
      sym (find-put text_discrete x (key a) a m) ∙ e in
    elim (text_discrete (key a) x) [
      | yes same ↦ let is : a ≡ b = ground (arith, found, same) in sym (ap key is) ∙ same
      | no other ↦ h x b (ground (arith, found, other))
    ]

module _ (net : Addresses) where
  abbrev pub tunnel_key : BlockedTunnel → Text
  tunnel_key t = format_tunnel (net.ip_string t.ip) t.teid

  pub actual_ips-IsKeyedBy :
      (ips : List Ip) (m : Map Text Ip)
      → IsKeyedBy net.ip_string m
      → IsKeyedBy net.ip_string (actual_ips net ips m)
  unfolding actual_ips
  actual_ips-IsKeyedBy [] m h = h
  actual_ips-IsKeyedBy (ip ∷ ips) m h =
      actual_ips-IsKeyedBy ips (put text_discrete (net.ip_string ip) ip m)
        (put-IsKeyedBy net.ip_string ip m h)

  pub actual_tunnels-IsKeyedBy :
      (ts : List BlockedTunnel) (m : Map Text BlockedTunnel)
      → IsKeyedBy tunnel_key m
      → IsKeyedBy tunnel_key (actual_tunnels net ts m)
  unfolding actual_tunnels
  actual_tunnels-IsKeyedBy [] m h = h
  actual_tunnels-IsKeyedBy (t ∷ ts) m h =
      actual_tunnels-IsKeyedBy ts (put text_discrete (tunnel_key t) t m)
        (put-IsKeyedBy tunnel_key t m h)

  desired_ips-IsKeyedBy :
      (raws : List Text) (m : Map Text Ip)
      → IsKeyedBy net.ip_string m
      → IsKeyedBy net.ip_string (desired_ips net raws m)
  unfolding desired_ips
  desired_ips-IsKeyedBy [] m h = h
  desired_ips-IsKeyedBy (raw ∷ raws) m h = elim (Option-cases (net.parse_ip raw)) [
    | inl e ↦ rw (e, desired_ips) (desired_ips-IsKeyedBy raws m h)
    | inr (ip, e) ↦
        rw (e, desired_ips)
          (desired_ips-IsKeyedBy raws (put text_discrete (net.ip_string ip) ip m)
            (put-IsKeyedBy net.ip_string ip m h))
  ]

  if-IsKeyedBy :
      (b : Bool) (t : BlockedTunnel) (m : Map Text BlockedTunnel)
      → IsKeyedBy tunnel_key m
      → IsKeyedBy tunnel_key (if b then m else put text_discrete (tunnel_key t) t m)
  if-IsKeyedBy true t m h = h
  if-IsKeyedBy false t m h = put-IsKeyedBy tunnel_key t m h

  desired_tunnels-IsKeyedBy :
      (entries : List Text) (m : Map Text BlockedTunnel)
      → IsKeyedBy tunnel_key m
      → IsKeyedBy tunnel_key (desired_tunnels net entries m)
  unfolding desired_tunnels
  desired_tunnels-IsKeyedBy [] m h = h
  desired_tunnels-IsKeyedBy (entry ∷ entries) m h = elim (Option-cases (parse_tunnel net entry)) [
    | inl e ↦ rw (e, desired_tunnels) (desired_tunnels-IsKeyedBy entries m h)
    | inr ((ip, teid), e) ↦
        rw (e, desired_tunnels)
          (desired_tunnels-IsKeyedBy entries _
            (if-IsKeyedBy (teid == 0) (record { ip = ip; teid = teid }) m h))
  ]

  pub desired_enforcement-IsKeyedBy :
      (policies : List Policy) (ips : Map Text Ip) (ts : Map Text BlockedTunnel)
      → IsKeyedBy net.ip_string ips
      → IsKeyedBy tunnel_key ts
      → IsKeyedBy net.ip_string (desired_enforcement net policies ips ts).0
        × IsKeyedBy tunnel_key (desired_enforcement net policies ips ts).1
  unfolding desired_enforcement
  desired_enforcement-IsKeyedBy [] ips ts h i = (h, i)
  desired_enforcement-IsKeyedBy (policy ∷ policies) ips ts h i = elim (Bool-cases policy.deleting) [
    | inl e ↦ rw e (desired_enforcement-IsKeyedBy policies ips ts h i)
    | inr e ↦ rw e (
        desired_enforcement-IsKeyedBy policies _ _
          (desired_ips-IsKeyedBy policy.status.blocked_source_ips ips h)
          (desired_tunnels-IsKeyedBy policy.status.blocked_tunnels ts i))
  ]

module _ {K A : Type 0} (family : Family K A) (f : K → Bool) where
  -- What no call of a family changes, no pass of it changes.
  pub correct-frame :
      ((a : A) (k : K) → f (family.add a k).0 ≡ f k)
      → ((a : A) (k : K) → f (family.remove a k).0 ≡ f k)
      → (previous : List Text) (desired actual : Map Text A) (k : K)
      → f (correct family previous desired actual k).kernel ≡ f k
  unfolding correct start add_one remove_one
  correct-frame adds removes previous desired actual k =
      each-keeps family (λ (p : Progress K). f p.kernel ≡ f k)
        (remove_one family previous desired actual)
        (λ (p : Progress K) (key : Text) (i : f p.kernel ≡ f k). removed p key ∙ i)
        (each family (add_one family desired actual) (start family k) (sorted_keys desired))
        (sorted_keys actual)
        (each-keeps family (λ (p : Progress K). f p.kernel ≡ f k) (add_one family desired actual)
          (λ (p : Progress K) (key : Text) (i : f p.kernel ≡ f k). added p key ∙ i) (start family k)
          (sorted_keys desired) refl)
    where
      added :
          (p : Progress K) (key : Text)
          → f (add_one family desired actual p key).kernel ≡ f p.kernel
      added p key = elim (Option-cases (find text_discrete key desired)) [
        | inl e ↦ ground (arith, e)
        | inr (a, e) ↦ ground (arith, e, adds a p.kernel)
      ]

      removed :
          (p : Progress K) (key : Text)
          → f (remove_one family previous desired actual p key).kernel ≡ f p.kernel
      removed p key = elim (Option-cases (find text_discrete key actual)) [
        | inl e ↦ ground (arith, e)
        | inr (a, e) ↦ ground (arith, e, removes a p.kernel)
      ]

-- The two families of a sync.
abbrev pub sources : {K : Type 0} → BlocklistUpdater K → Family K Ip
sources ebpf = record { prefix = codes "ip:"; add = ebpf.block; remove = ebpf.unblock }

abbrev pub tunnels : {K : Type 0} → BlocklistUpdater K → Family K BlockedTunnel
tunnels ebpf = record {
  prefix = codes "tunnel:";
  add = λ (t : BlockedTunnel). ebpf.block_tunnel t.ip t.teid;
  remove = λ (t : BlockedTunnel). ebpf.unblock_tunnel t.ip t.teid;
}

-- What a sync asks of the kernel and its inspector: each family is lawful, with its entries under the
-- texts that Sync gives them, the calls of one family leave the other alone, and a read that succeeds
-- gives exactly the entries that are there.
pub record Inspected {K : Type 0} (net : Addresses) (ebpf : BlocklistUpdater K)
    (inspector : Inspector K) : Type 0 where
  pub source_laws : Lawful (sources ebpf)
  pub tunnel_laws : Lawful (tunnels ebpf)
  pub source_named : (ip : Ip) → source_laws.key_of ip ≡ net.ip_string ip
  pub tunnel_named : (t : BlockedTunnel) → tunnel_laws.key_of t ≡ tunnel_key net t
  pub block_apart :
      (ip : Ip) (k : K) (x : Text) → tunnel_laws.holds x (ebpf.block ip k).0 ≡ tunnel_laws.holds x k
  pub unblock_apart :
      (ip : Ip) (k : K) (x : Text)
      → tunnel_laws.holds x (ebpf.unblock ip k).0 ≡ tunnel_laws.holds x k
  pub block_tunnel_apart :
      (ip : Ip) (teid : ℕ) (k : K) (x : Text)
      → source_laws.holds x (ebpf.block_tunnel ip teid k).0 ≡ source_laws.holds x k
  pub unblock_tunnel_apart :
      (ip : Ip) (teid : ℕ) (k : K) (x : Text)
      → source_laws.holds x (ebpf.unblock_tunnel ip teid k).0 ≡ source_laws.holds x k
  pub sources_read :
      (k : K) (ips : List Ip) (x : Text)
      → inspector.blocked_ips k ≡ some ips
      → (find text_discrete x (actual_ips net ips []) ≢ none) ↔ (source_laws.holds x k ≡ true)
  pub tunnels_read :
      (k : K) (ts : List BlockedTunnel) (x : Text)
      → inspector.blocked_tunnels k ≡ some ts
      → (find text_discrete x (actual_tunnels net ts []) ≢ none) ↔ (tunnel_laws.holds x k ≡ true)

-- A sync that read what it needed and reports no error.
abbrev pub IsClean : {K : Type 0} → Option (Progress K × Progress K) → Type 0
IsClean none = ⊥
IsClean (some (s, t)) = (s.errors ≡ []) × (t.errors ≡ [])

pub contains-append_left :
    (x : Text) (xs ys : List Text) → contains x xs ≡ true → contains x (xs ++ ys) ≡ true
unfolding contains
contains-append_left x [] ys h = absurd (cc)
contains-append_left x (y ∷ xs) ys h = ground (arith, h, contains-append_left x xs ys)

pub contains-append_right :
    (x : Text) (xs ys : List Text) → contains x ys ≡ true → contains x (xs ++ ys) ≡ true
unfolding contains
contains-append_right x [] ys h = h
contains-append_right x (y ∷ xs) ys h = ground (arith, contains-append_right x xs ys h)

module _ {K : Type 0} (net : Addresses) (ebpf : BlocklistUpdater K) (inspector : Inspector K)
    (policies : List Policy) where
  abbrev pub passes : List Ip → List BlockedTunnel → List Text → K → Progress K × Progress K
  passes ips ts previous k =
      let want = desired_enforcement net policies [] [] in
      let s = correct (sources ebpf) previous want.0 (actual_ips net ips []) k in
      (s, correct (tunnels ebpf) previous want.1 (actual_tunnels net ts []) s.kernel)

  abbrev pub synced : Progress K × Progress K → Synced K
  synced (s, t) = record {
    kernel = t.kernel;
    unclaimed = t.unclaimed ++ s.unclaimed;
    report = some (s, t);
  }

  -- A clean sync has read both maps, and ran the two families' passes on what it read.
  pub sync-passes :
      (previous : List Text) (k : K)
      → IsClean (sync net ebpf inspector (some policies) previous k).report
      → (ips : List Ip) × (ts : List BlockedTunnel) × (inspector.blocked_ips k ≡ some ips)
        × (inspector.blocked_tunnels k ≡ some ts)
        × (sync net ebpf inspector (some policies) previous k ≡ synced (passes ips ts previous k))
  unfolding sync
  sync-passes previous k clean = elim (Option-cases (inspector.blocked_ips k)) [
    | inl e ↦
        let unread : (sync net ebpf inspector (some policies) previous k).report ≡ none =
          ground (arith, e) in
        absurd (subst IsClean unread clean)
    | inr (ips, e) ↦ elim (Option-cases (inspector.blocked_tunnels k)) [
      | inl e' ↦
          let unread : (sync net ebpf inspector (some policies) previous k).report ≡ none =
            ground (arith, e, e') in
          absurd (subst IsClean unread clean)
      | inr (ts, e') ↦ (ips, ts, e, e', rw (e, e', sync) refl)
    ]
  ]
