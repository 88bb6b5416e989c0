-- ===== src/Controller/PodIpIndex.antt =====
-- pkg/controller/pod_ip_index.go and pod_ip_indexer.go: which Pod owns an address. A PodRef and
-- the NamespacedName of its Pod are one type here, so `key` below is `ref`.
pub mod Ownership
use sentinel5g.Prelude.{Option, none, some, Bool, true, false, [], Text, text_discrete, ite}
use sentinel5g.Prelude.Map.{Map, find, put, del}
use sentinel5g.Controller.Names.{NamespacedName, name_discrete}

pub record PodIpIndex : Type 0 where
  pub by_ip : Map Text NamespacedName
  pub by_pod : Map NamespacedName Text

-- NewPodIPIndex
abbrev pub new_index : PodIpIndex
new_index = record { by_ip = []; by_pod = [] }

-- delete(byIP, ip), if it still points at this Pod.
unfoldable pub release_ip :
    Text → NamespacedName → Map Text NamespacedName → Map Text NamespacedName
release_ip ip ref by_ip = elim (find text_discrete ip by_ip) [
  | none ↦ by_ip
  | some owner ↦ ite (name_discrete owner ref) (del text_discrete ip by_ip) by_ip
]

-- The forward index without the Pod's previous address.
unfoldable pub forget_old_ip : Text → NamespacedName → PodIpIndex → Map Text NamespacedName
forget_old_ip ip ref idx = elim (find name_discrete ref idx.by_pod) [
  | none ↦ idx.by_ip
  | some old_ip ↦ ite (text_discrete old_ip ip) idx.by_ip (release_ip old_ip ref idx.by_ip)
]

-- Put
unfoldable pub put_pod : Text → NamespacedName → PodIpIndex → PodIpIndex
put_pod ip ref idx = ite (text_discrete ip []) idx (record {
  by_ip = put text_discrete ip ref (forget_old_ip ip ref idx);
  by_pod = put name_discrete ref ip idx.by_pod;
})

-- Lookup
unfoldable pub lookup_ip : Text → PodIpIndex → Option NamespacedName
lookup_ip ip idx = find text_discrete ip idx.by_ip

-- Remove
unfoldable pub remove_pod : NamespacedName → PodIpIndex → PodIpIndex
remove_pod key idx = elim (find name_discrete key idx.by_pod) [
  | none ↦ idx
  | some ip ↦ record {
    by_ip = release_ip ip key idx.by_ip;
    by_pod = del name_discrete key idx.by_pod;
  }
]

-- What a Get of a Pod answers: its status.podIP, that it is not there, or another error.
pub data PodReply : Type 0 where
  found : Text → PodReply
  not_found failed : PodReply

-- PodIPIndexer.Reconcile: the index, and whether the request succeeded.
unfoldable pub reconcile_pod : NamespacedName → PodReply → PodIpIndex → PodIpIndex × Bool
reconcile_pod key (found ip) idx = (ite (text_discrete ip []) idx (put_pod ip key idx), true)
reconcile_pod key not_found idx = (remove_pod key idx, true)
reconcile_pod key failed idx = (idx, false)
