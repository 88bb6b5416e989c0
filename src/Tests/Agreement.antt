-- ===== src/Tests/Agreement.antt =====
-- A score handled by the watcher over a kernel of two maps: what it blocks is claimed.
use sentinel5g.Prelude.{
  ℕ, ◌≡◌, ◌≢◌, ◌⊎◌, inl, inr, Bool, true, false, [], ◌∷◌, Option, none, some, Text, codes,
  text_discrete, refl, arith, sym, ap, ◌∙◌, ite, subst, Bool-cases, ◌==◌,
}
use sentinel5g.Prelude.Map.{Map, find, put, find-put}
use sentinel5g.Ebpf.Interface.{Ip}
use sentinel5g.Detect.TunnelFlood.{TunnelId, tunnel_id_discrete}
use sentinel5g.Controller.Names.{NamespacedName, name_discrete}
use sentinel5g.Controller.Api.{Policy}
use sentinel5g.Controller.KillSwitch.{failed}
use sentinel5g.Controller.PolicyIndex.{PolicyIndex, put_policy}
use sentinel5g.Controller.PolicyIndex.View.{held, held-put_policy, put_policy-IsValid, IsValid}
use sentinel5g.Controller.Tunnels.{slash}
use sentinel5g.Controller.Watcher.{World, Deps}
use sentinel5g.Controller.Watcher.Claims.{Blocking, AllClaimed}
use sentinel5g.Controller.Watcher.Handle.{found, Delivery, handle_all}
use sentinel5g.Controller.Watcher.Agreement.{
  Agrees, IsSynced, IsSound, Delivered, handle_all-Agrees,
}
use sentinel5g.Tests.Fixtures.{
  hundredths, plain_addresses, Kernel, kernel_maps, block_tunnel_in, counting_mesh, one_token,
  source_b, score_of, blocking_policy,
}

abbrev pub watcher : Deps ℕ Kernel ℕ ℕ
watcher = record {
  fl = hundredths;
  net = plain_addresses;
  ebpf = kernel_maps;
  adapter = counting_mesh;
  rate = one_token;
  base = 90;
}

abbrev is_some : {A : Type 0} → Option A → Bool
is_some none = false
is_some (some a) = true

abbrev in_kernel : Text ⊎ TunnelId → Kernel → Bool
in_kernel (inl ip) k = is_some (find text_discrete ip k.0)
in_kernel (inr t) k = is_some (find tunnel_id_discrete t k.1)

put_only :
    {K V : Type 0} (dec : Discrete K) (j k : K) (v : V) (m : Map K V)
    → is_some (find dec j (put dec k v m)) ≡ true
    → (j ≡ k) ⊎ (is_some (find dec j m) ≡ true)
put_only dec j k v m h = elim (dec k j) [
  | yes e ↦ inl (sym e)
  | no n ↦ inr (ground (arith, h, n, find-put dec j k v m))
]

only_tunnel :
    (ip : Ip) (teid : ℕ) (k : Kernel) (x : Text ⊎ TunnelId)
    → in_kernel x (block_tunnel_in ip teid k).0 ≡ true
    → ((teid == 0) ≡ true) ⊎ ((teid == 0) ≡ false)
    → (x ≡ inr (record { source_ip = ip; teid = teid })) ⊎ (in_kernel x k ≡ true)
unfolding block_tunnel_in
only_tunnel ip teid k x h (inl zero) = inr (rw zero at h)
only_tunnel ip teid k (inl y) h (inr positive) = inr (rw positive at h)
only_tunnel ip teid k (inr t) h (inr positive) =
    elim (put_only tunnel_id_discrete t (record { source_ip = ip; teid = teid }) 1 k.1
      (rw positive at h)) [ inl e ↦ inl (ap (λ z. inr z) e) | inr old ↦ inr old ]

-- The kernel of two maps takes in only what it is told to block.
abbrev two_maps : Blocking (Text ⊎ TunnelId) kernel_maps
two_maps = record {
  entry_of = λ ip. inl ip;
  tunnel_of = λ ip teid. inr (record { source_ip = ip; teid = teid });
  holds = in_kernel;
  block_only = block_only;
  block_tunnel_only = block_tunnel_only;
}
  where
    block_only :
        (ip : Ip) (k : Kernel) (x : Text ⊎ TunnelId)
        → in_kernel x (kernel_maps.block ip k).0 ≡ true
        → (x ≡ inl ip) ⊎ (in_kernel x k ≡ true)
    block_only ip k (inl y) h = elim (put_only text_discrete y ip ip k.0 h) [
      | inl e ↦ inl (ap (λ z. inl z) e)
      | inr old ↦ inr old
    ]
    block_only ip k (inr t) h = inr h

    block_tunnel_only :
        (ip : Ip) (teid : ℕ) (k : Kernel) (x : Text ⊎ TunnelId)
        → in_kernel x (kernel_maps.block_tunnel ip teid k).0 ≡ true
        → (x ≡ inr (record { source_ip = ip; teid = teid })) ⊎ (in_kernel x k ≡ true)
    block_tunnel_only ip teid k x h = only_tunnel ip teid k x h (Bool-cases (teid == 0))

nothing_in :
    {K : Type 0} (V : Type 0) (dec : Discrete K) (k : K)
    → is_some (find {V = V} dec k []) ≡ true
    → ⊥
unfolding find
nothing_in V dec k h = cc

abbrev pub one_policy : World Kernel ℕ ℕ
one_policy = record {
  index = put_policy blocking_policy [];
  statuses = (blocking_policy.key, blocking_policy.status) ∷ [];
  kernel = ([], []);
  mesh = 1;
  limiters = some [];
  kill_switch = none;
  tracker = none;
  metrics = [];
}

abbrev arriving : Delivery ℕ
arriving = record {
  inputs =
      λ i. record { now = 9; kill_now = 9; kill_after = 9; kill_reply = failed; accepts = true };
  now = 9;
  pod = found ((codes "app", 7 ∷ []) ∷ []);
  event = score_of source_b 6 100;
}

one_policy-Agrees : Agrees watcher two_maps one_policy
one_policy-Agrees = (put_policy-IsValid blocking_policy [] nothing, synced, claimed)
  where
    nothing : IsValid []
    nothing namespace = unfold sentinel5g.Controller.PolicyIndex.in_namespace find in tt

    nothing_held : (key : NamespacedName) → held key [] ≡ none
    nothing_held key = unfold held sentinel5g.Controller.PolicyIndex.in_namespace find in refl

    stored :
        (key : NamespacedName)
        → find name_discrete key one_policy.statuses
          ≡ ite (name_discrete blocking_policy.key key) (some blocking_policy.status) none
    stored key = unfold find in refl

    synced : IsSynced one_policy
    synced key p h = elim (name_discrete blocking_policy.key key) [
      | yes e ↦
          let is : blocking_policy ≡ p =
            ground (arith, e, h, held-put_policy key blocking_policy []) in
          (
            ap (λ (q : Policy). q.key) (sym is) ∙ e,
            ground (arith, e, stored key, ap (λ (q : Policy). q.status) is),
          )
      | no n ↦
          absurd (ground (arith, n, h, held-put_policy key blocking_policy [], nothing_held key))
    ]

    claimed : AllClaimed watcher two_maps one_policy
    claimed (inl ip) h = absurd (nothing_in Text text_discrete ip h)
    claimed (inr t) h = absurd (nothing_in ℕ tunnel_id_discrete t h)

arriving-IsSound : (d : Delivery ℕ) → Delivered d (arriving ∷ []) → IsSound plain_addresses d.event
arriving-IsSound d (inl e) =
    subst (λ (x : Delivery ℕ). IsSound plain_addresses x.event) e (omega arith, λ _. (apart, tt))
  where
    apart : 50 ≢ slash
    apart e = omega (arith, e)
arriving-IsSound d (inr l) = absurd l

handle_all-Agrees_example : Agrees watcher two_maps (handle_all watcher (arriving ∷ []) one_policy)
handle_all-Agrees_example =
    handle_all-Agrees watcher two_maps (arriving ∷ []) one_policy arriving-IsSound one_policy-Agrees
