-- ===== src/Controller/PodIpIndex/Ownership.antt =====
-- Attribution of addresses to Pods (pkg/controller/pod_ip_index.go): the two maps agree. A
-- Pod's update takes no address from another Pod but the one that it reports, and a removal none.
use sentinel5g.Prelude.{
  some, Text, [], List, ◌∷◌, text_discrete, ◌≡◌, ◌≢◌, arith, inl, inr, Option-cases,
}
use sentinel5g.Prelude.Map.{Map, find, find-put, find-del}
use sentinel5g.Controller.Names.{NamespacedName, name_discrete}
use sentinel5g.Controller.PodIpIndex.{
  PodIpIndex, PodReply, found, not_found, failed, new_index, release_ip, forget_old_ip, put_pod,
  remove_pod, lookup_ip, reconcile_pod,
}

-- Every address in the index leads back: its owner's last known address is this one.
abbrev pub IsConsistent : PodIpIndex → Type 0
IsConsistent idx =
    (ip : Text) (ref : NamespacedName)
    → find text_discrete ip idx.by_ip ≡ some ref
    → find name_discrete ref idx.by_pod ≡ some ip

find-release_ip :
    (j ip : Text) (ref r : NamespacedName) (m : Map Text NamespacedName)
    → find text_discrete j (release_ip ip ref m) ≡ some r
    → (find text_discrete j m ≡ some r) × ((j ≡ ip) → r ≢ ref)
unfolding release_ip
find-release_ip j ip ref r m h = ground (arith, h, find-del text_discrete j ip m)

-- An entry of another Pod stays.
release_ip_other :
    (j ip : Text) (ref r : NamespacedName) (m : Map Text NamespacedName)
    → r ≢ ref
    → find text_discrete j m ≡ some r
    → find text_discrete j (release_ip ip ref m) ≡ some r
unfolding release_ip
release_ip_other j ip ref r m ne h = ground (arith, h, ne, find-del text_discrete j ip m)

forget_old_ip_other :
    (j ip : Text) (ref r : NamespacedName) (idx : PodIpIndex)
    → r ≢ ref
    → find text_discrete j idx.by_ip ≡ some r
    → find text_discrete j (forget_old_ip ip ref idx) ≡ some r
unfolding forget_old_ip
forget_old_ip_other j ip ref r idx ne h = elim (Option-cases (find name_discrete ref idx.by_pod)) [
  | inl e ↦ ground (arith, h, e)
  | inr (old, e) ↦ ground (arith, h, e, release_ip_other j old ref r idx.by_ip ne h)
]

find-forget_old_ip :
    (j ip : Text) (ref r : NamespacedName) (idx : PodIpIndex)
    → IsConsistent idx
    → find text_discrete j (forget_old_ip ip ref idx) ≡ some r
    → (find text_discrete j idx.by_ip ≡ some r) × (r ≡ ref → j ≡ ip)
unfolding forget_old_ip
find-forget_old_ip j ip ref r idx c h = elim (Option-cases (find name_discrete ref idx.by_pod)) [
  | inl e ↦ ground (arith, h, e, c j r)
  | inr (old, e) ↦ ground (arith, h, e, c j r, find-release_ip j old ref r idx.by_ip)
]

put_pod-IsConsistent :
    (ip : Text) (ref : NamespacedName) (idx : PodIpIndex)
    → IsConsistent idx
    → IsConsistent (put_pod ip ref idx)
unfolding put_pod
put_pod-IsConsistent ip ref idx c j r h = ground (
  arith,
  h,
  c j r,
  find-put text_discrete j ip ref (forget_old_ip ip ref idx),
  find-put name_discrete r ref ip idx.by_pod,
  find-forget_old_ip j ip ref r idx c,
)

remove_pod-IsConsistent :
    (key : NamespacedName) (idx : PodIpIndex) → IsConsistent idx → IsConsistent (remove_pod key idx)
unfolding remove_pod
remove_pod-IsConsistent key idx c j r h = elim (Option-cases (find name_discrete key idx.by_pod)) [
  | inl e ↦ ground (arith, h, e, c j r)
  | inr (ip, e) ↦ ground (
    arith,
    h,
    e,
    c j r,
    find-release_ip j ip key r idx.by_ip,
    find-del name_discrete r key idx.by_pod,
  )
]

-- A history of reconciled Pods, each with what the API answered.
pub run_pods : PodIpIndex → List (NamespacedName × PodReply) → PodIpIndex
run_pods idx [] = idx
run_pods idx ((key, reply) ∷ rest) = run_pods (reconcile_pod key reply idx).0 rest

reconcile_pod-IsConsistent :
    (key : NamespacedName) (reply : PodReply) (idx : PodIpIndex)
    → IsConsistent idx
    → IsConsistent (reconcile_pod key reply idx).0
unfolding reconcile_pod
reconcile_pod-IsConsistent key (found ip) idx c j r h =
    ground (arith, h, c j r, put_pod-IsConsistent ip key idx c j r)
reconcile_pod-IsConsistent key not_found idx c j r h = remove_pod-IsConsistent key idx c j r h
reconcile_pod-IsConsistent key failed idx c j r h = c j r h

run_pods-keeps :
    (idx : PodIpIndex) (history : List (NamespacedName × PodReply))
    → IsConsistent idx
    → IsConsistent (run_pods idx history)
unfolding run_pods
run_pods-keeps idx [] c = c
run_pods-keeps idx ((key, reply) ∷ rest) c =
    run_pods-keeps (reconcile_pod key reply idx).0 rest (reconcile_pod-IsConsistent key reply idx c)

-- After any history of Pod reconciles, in whatever order they ran, every address in the index
-- belongs to a Pod whose last known address it is.
pub run_pods-IsConsistent :
    (history : List (NamespacedName × PodReply)) → IsConsistent (run_pods new_index history)
run_pods-IsConsistent history =
    run_pods-keeps new_index history (λ ip ref e. unfold find in absurd (cc))

-- A deleted Pod leaves no address behind, and takes none away from any other Pod, also where its
-- old address is another's by then.
pub lookup-remove_pod :
    (key : NamespacedName) (idx : PodIpIndex)
    → IsConsistent idx
    → ((ip : Text) → lookup_ip ip (remove_pod key idx) ≢ some key)
      × ((ip : Text) (ref : NamespacedName)
          → ref ≢ key
          → lookup_ip ip idx ≡ some ref
          → lookup_ip ip (remove_pod key idx) ≡ some ref)
unfolding lookup_ip remove_pod
lookup-remove_pod key idx c = elim (Option-cases (find name_discrete key idx.by_pod)) [
  | inl e ↦ (λ ip h. ground (arith, h, e, c ip key), λ ip ref ne h. ground (arith, h, e))
  | inr (old, e) ↦ (
    λ ip h. ground (arith, h, e, c ip key, find-release_ip ip old key key idx.by_ip),
    λ ip ref ne h. ground (arith, h, e, ne, release_ip_other ip old key ref idx.by_ip),
  )
]

-- An address belongs to the Pod that reported it last; the reporting Pod keeps no other address,
-- and no other Pod loses one but the one whose address this was.
pub lookup-put_pod :
    (ip : Text) (ref : NamespacedName) (idx : PodIpIndex)
    → IsConsistent idx
    → ip ≢ []
    → (lookup_ip ip (put_pod ip ref idx) ≡ some ref)
      × ((j : Text) → lookup_ip j (put_pod ip ref idx) ≡ some ref → j ≡ ip)
      × ((j : Text) (r : NamespacedName)
          → j ≢ ip
          → r ≢ ref
          → lookup_ip j idx ≡ some r
          → lookup_ip j (put_pod ip ref idx) ≡ some r)
unfolding lookup_ip put_pod
lookup-put_pod ip ref idx c h =
    let law = λ (j : Text). find-put text_discrete j ip ref (forget_old_ip ip ref idx) in
    (
      ground (arith, h, law ip),
      λ j e. ground (arith, e, h, law j, find-forget_old_ip j ip ref ref idx c),
      λ j r ne ne' e. ground (arith, e, h, ne, ne', law j, forget_old_ip_other j ip ref r idx),
    )
