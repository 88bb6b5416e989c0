-- ===== src/Tests/Replay.antt =====
-- Two whole syncs of pkg/controller/blocklist_reconciler.go, over a kernel that keeps each family in a
-- list.
use sentinel5g.Prelude.{
  ◌≡◌, ◌≢◌, ◌⊎◌, inl, inr, ◌↔◌, Bool, true, false, List, [], ◌∷◌, Option, none, some, Text,
  text_discrete, refl, sym, ite, arith,
}
use sentinel5g.Prelude.Map.{Map, find, put, find-put}
use sentinel5g.Ebpf.Interface.{Ip, BlocklistUpdater}
use sentinel5g.Controller.Drift.{BlockedTunnel, Inspector, actual_ips, actual_tunnels, sync}
use sentinel5g.Controller.Drift.Half.{Lawful}
use sentinel5g.Controller.Drift.Whole.{sources, tunnels, tunnel_key, Inspected}
use sentinel5g.Controller.Drift.Replay.{IsEnforced, sync-IsEnforced}
use sentinel5g.Tests.Fixtures.{plain_addresses, source_b, blocking_policy}

module _ {A : Type 0} (key : A → Text) where
  listed : Text → List A → Bool
  listed x [] = false
  listed x (a ∷ l) = ite (text_discrete (key a) x) true (listed x l)

  unlisted : Text → List A → List A
  unlisted x [] = []
  unlisted x (a ∷ l) = ite (text_discrete (key a) x) (unlisted x l) (a ∷ unlisted x l)

  filled : List A → Map Text A → Map Text A
  filled [] m = m
  filled (a ∷ l) m = filled l (put text_discrete (key a) a m)

  listed-unlisted :
      (x y : Text) (l : List A)
      → listed x (unlisted y l) ≡ ite (text_discrete y x) false (listed x l)
  unfolding listed unlisted
  listed-unlisted x y [] = ground arith
  listed-unlisted x y (a ∷ l) = ground (arith, listed-unlisted x y l)

  filled-listed :
      (x : Text) (l : List A) (m : Map Text A)
      → find text_discrete x m ≡ none
      → find text_discrete x (filled l m) ≢ none
      → listed x l ≡ true
  unfolding listed filled
  filled-listed x [] m h there = absurd (there h)
  filled-listed x (a ∷ l) m h there = elim (text_discrete (key a) x) [
    | yes same ↦ ground (arith, same)
    | no other ↦
        let missing : find text_discrete x (put text_discrete (key a) a m) ≡ none =
          ground (arith, find-put text_discrete x (key a) a m, h, other) in
        let below = filled-listed x l (put text_discrete (key a) a m) missing there in
        ground (arith, below, other)
  ]

  listed-filled :
      (x : Text) (l : List A) (m : Map Text A)
      → (listed x l ≡ true) ⊎ (find text_discrete x m ≢ none)
      → find text_discrete x (filled l m) ≢ none
  unfolding listed filled
  listed-filled x [] m (inl h) = absurd (cc)
  listed-filled x [] m (inr h) = h
  listed-filled x (a ∷ l) m h = elim (text_discrete (key a) x) [
    | yes same ↦
        listed-filled x l (put text_discrete (key a) a m)
          (inr (λ e. ground (arith, e, same, find-put text_discrete x (key a) a m)))
    | no other ↦ listed-filled x l (put text_discrete (key a) a m) (elim h [
      | inl i ↦ inl (ground (arith, i, other))
      | inr i ↦ inr (λ e. i (ground (arith, e, other, find-put text_discrete x (key a) a m)))
    ])
  ]

abbrev Lists : Type 0
Lists = List Ip × List BlockedTunnel

abbrev path_key : BlockedTunnel → Text
path_key = tunnel_key plain_addresses

abbrev ip_key : Ip → Text
ip_key ip = ip

abbrev kernel_lists : BlocklistUpdater Lists
kernel_lists = record {
  block = λ ip k. ((ip ∷ k.0, k.1), none);
  unblock = λ ip k. ((unlisted ip_key ip k.0, k.1), none);
  block_tunnel = λ ip teid k. ((k.0, record { ip = ip; teid = teid } ∷ k.1), none);
  unblock_tunnel = λ ip teid k.
      ((k.0, unlisted path_key (path_key (record { ip = ip; teid = teid })) k.1), none);
}

abbrev list_inspector : Inspector Lists
list_inspector = record { blocked_ips = λ k. some k.0; blocked_tunnels = λ k. some k.1 }

actual_ips-eq : (l : List Ip) (m : Map Text Ip) → actual_ips plain_addresses l m ≡ filled ip_key l m
unfolding actual_ips filled
actual_ips-eq [] m = refl
actual_ips-eq (a ∷ l) m = actual_ips-eq l (put text_discrete a a m)

actual_tunnels-eq :
    (l : List BlockedTunnel) (m : Map Text BlockedTunnel)
    → actual_tunnels plain_addresses l m ≡ filled path_key l m
unfolding actual_tunnels filled
actual_tunnels-eq [] m = refl
actual_tunnels-eq (a ∷ l) m = actual_tunnels-eq l (put text_discrete (path_key a) a m)

listed_first :
    {A : Type 0} (key : A → Text) (a : A) (l : List A) → listed key (key a) (a ∷ l) ≡ true
unfolding listed
listed_first key a l = ground arith

listed_keeps :
    {A : Type 0} (key : A → Text) (a : A) (l : List A) (x : Text)
    → listed key x l ≡ true
    → listed key x (a ∷ l) ≡ true
unfolding listed
listed_keeps key a l x h = ground (arith, h)

listed_other :
    {A : Type 0} (key : A → Text) (a : A) (l : List A) (x : Text)
    → x ≢ key a
    → listed key x (a ∷ l) ≡ listed key x l
unfolding listed
listed_other key a l x h = ground (arith, λ (e : key a ≡ x). h (sym e))

unlisted_gone :
    {A : Type 0} (key : A → Text) (l : List A) (x : Text) → listed key x (unlisted key x l) ≡ false
unlisted_gone key l x = ground (arith, listed-unlisted key x x l)

unlisted_out :
    {A : Type 0} (key : A → Text) (y : Text) (l : List A) (x : Text)
    → listed key x l ≡ false
    → listed key x (unlisted key y l) ≡ false
unlisted_out key y l x h = ground (arith, h, listed-unlisted key x y l)

unlisted_other :
    {A : Type 0} (key : A → Text) (y : Text) (l : List A) (x : Text)
    → x ≢ y
    → listed key x (unlisted key y l) ≡ listed key x l
unlisted_other key y l x h = ground (arith, λ (e : y ≡ x). h (sym e), listed-unlisted key x y l)

abbrev sources_lawful : Lawful (sources kernel_lists)
sources_lawful = record {
  key_of = ip_key;
  holds = λ x k. listed ip_key x k.0;
  add_there = λ a k e. listed_first ip_key a k.0;
  add_keeps = λ a k x h. listed_keeps ip_key a k.0 x h;
  add_others = λ a k x h. listed_other ip_key a k.0 x h;
  remove_gone = λ a k e. unlisted_gone ip_key k.0 a;
  remove_brings_none = λ a k x h. unlisted_out ip_key a k.0 x h;
  remove_others = λ a k x h. unlisted_other ip_key a k.0 x h;
}

abbrev tunnels_lawful : Lawful (tunnels kernel_lists)
tunnels_lawful = record {
  key_of = path_key;
  holds = λ x k. listed path_key x k.1;
  add_there = λ a k e. listed_first path_key a k.1;
  add_keeps = λ a k x h. listed_keeps path_key a k.1 x h;
  add_others = λ a k x h. listed_other path_key a k.1 x h;
  remove_gone = λ a k e. unlisted_gone path_key k.1 (path_key a);
  remove_brings_none = λ a k x h. unlisted_out path_key (path_key a) k.1 x h;
  remove_others = λ a k x h. unlisted_other path_key (path_key a) k.1 x h;
}

filled_reads :
    {A : Type 0} (key : A → Text) (l : List A) (x : Text)
    → (find text_discrete x (filled key l []) ≢ none) ↔ (listed key x l ≡ true)
unfolding find
filled_reads key l x = (λ h. filled-listed key x l [] refl h, λ h. listed-filled key x l [] (inl h))

some_same : {A : Type 0} {x y : A} → ◌≡◌ {A = Option A} (some x) (some y) → x ≡ y
some_same h = cc

read_sources :
    (k : Lists) (ips : List Ip) (x : Text)
    → list_inspector.blocked_ips k ≡ some ips
    → (find text_discrete x (actual_ips plain_addresses ips []) ≢ none)
      ↔ (listed ip_key x k.0 ≡ true)
read_sources k ips x e =
    rw (actual_ips-eq ips []) (rw (sym (some_same e)) (filled_reads ip_key k.0 x))

read_tunnels :
    (k : Lists) (ts : List BlockedTunnel) (x : Text)
    → list_inspector.blocked_tunnels k ≡ some ts
    → (find text_discrete x (actual_tunnels plain_addresses ts []) ≢ none)
      ↔ (listed path_key x k.1 ≡ true)
read_tunnels k ts x e =
    rw (actual_tunnels-eq ts []) (rw (sym (some_same e)) (filled_reads path_key k.1 x))

abbrev inspected : Inspected plain_addresses kernel_lists list_inspector
inspected = record {
  source_laws = sources_lawful;
  tunnel_laws = tunnels_lawful;
  source_named = λ ip. refl;
  tunnel_named = λ t. refl;
  block_apart = λ ip k x. refl;
  unblock_apart = λ ip k x. refl;
  block_tunnel_apart = λ ip teid k x. refl;
  unblock_tunnel_apart = λ ip teid k x. refl;
  sources_read = read_sources;
  tunnels_read = read_tunnels;
}

-- The policy claims the first source and no tunnel; the kernel holds the second source and a tunnel.
abbrev left_over : Lists
left_over = (source_b ∷ [], record { ip = source_b; teid = 9 } ∷ [])

sync-IsEnforced_example :
    let first =
      sync plain_addresses kernel_lists list_inspector (some (blocking_policy ∷ [])) [] left_over in
    let second =
      sync plain_addresses kernel_lists list_inspector
        (some (blocking_policy ∷ []))
        first.unclaimed
        first.kernel in
    IsEnforced plain_addresses kernel_lists list_inspector inspected
      (blocking_policy ∷ [])
      second.kernel
unfolding sync sentinel5g.Controller.Drift.correct sentinel5g.Controller.Drift.each
    sentinel5g.Controller.Drift.sorted_keys actual_ips actual_tunnels put unlisted
    sentinel5g.Controller.Drift.insert_text sentinel5g.Controller.Drift.remove_one find
    sentinel5g.Controller.Drift.desired_enforcement sentinel5g.Controller.Drift.desired_ips
    sentinel5g.Controller.Drift.desired_tunnels text_discrete sentinel5g.Controller.Watcher.contains
    sentinel5g.Controller.Drift.add_one sentinel5g.Controller.Drift.error_list
    sentinel5g.Controller.Drift.start sentinel5g.Controller.Drift.text_le
    sentinel5g.Controller.Tunnels.format_tunnel sentinel5g.Controller.Tunnels.hex
    sentinel5g.Controller.Tunnels.hex_digit
sync-IsEnforced_example =
    sync-IsEnforced plain_addresses kernel_lists list_inspector inspected (blocking_policy ∷ []) []
      left_over (refl, refl) (refl, refl)
