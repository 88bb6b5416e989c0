-- ===== src/Controller/Limiter.antt =====
-- pkg/controller/reactor_limiter.go: a token bucket for each policy. The bucket itself is
-- golang.org/x/time/rate, and is a parameter.
pub mod Isolation
use sentinel5g.Prelude.{ℕ, Bool, true, [], Option, none, some}
use sentinel5g.Prelude.Map.{Map, find, put, del}
use sentinel5g.Controller.Names.{NamespacedName, name_discrete}

-- rate.NewLimiter of the configured rate and burst, and Allow at a time.
pub record Buckets (L : Type 0) : Type 0 where
  pub new_bucket : L
  pub allow : ℕ → L → L × Bool

abbrev pub Limiters : Type 0 → Type 0
Limiters L = Map NamespacedName L

module _ {L : Type 0} (rate : Buckets L) where
  -- The policy's bucket, a new one where it has none.
  unfoldable pub bucket_of : NamespacedName → Limiters L → L
  bucket_of key limiters = elim (find name_discrete key limiters) [
    | none ↦ rate.new_bucket
    | some lim ↦ lim
  ]

  -- Allow: no limiter always allows.
  unfoldable pub allow : NamespacedName → ℕ → Option (Limiters L) → Option (Limiters L) × Bool
  allow key now none = (none, true)
  allow key now (some limiters) =
      let (lim, granted) = rate.allow now (bucket_of key limiters) in
      (some (put name_discrete key lim limiters), granted)

-- Forget
unfoldable pub forget : {L : Type 0} → NamespacedName → Option (Limiters L) → Option (Limiters L)
forget key none = none
forget key (some limiters) = some (del name_discrete key limiters)
