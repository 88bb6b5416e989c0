-- ===== src/Controller/Limiter/Isolation.antt =====
-- One policy's status writes never use up another's tokens (pkg/controller/reactor_limiter.go).
use sentinel5g.Prelude.{ℕ, ◌≡◌, ◌≢◌, List, [], ◌∷◌, Option, none, some, arith, refl, ◌∙◌}
use sentinel5g.Prelude.Map.{put, find-put}
use sentinel5g.Controller.Names.{NamespacedName, name_discrete}
use sentinel5g.Controller.Limiter.{Buckets, Limiters, bucket_of, allow}

module _ {L : Type 0} (rate : Buckets L) where
  -- A storm of requests, each of a policy at a time.
  unfoldable pub allow_all : Option (Limiters L) → List (NamespacedName × ℕ) → Option (Limiters L)
  allow_all lims [] = lims
  allow_all lims ((key, now) ∷ reqs) = allow_all (allow rate key now lims).0 reqs

  -- None of the requests is this policy's.
  abbrev pub Others : NamespacedName → List (NamespacedName × ℕ) → Type 0
  Others key [] = Unit {0}
  Others key ((k, now) ∷ reqs) = (k ≢ key) × Others key reqs

  bucket_of-put :
      (key k : NamespacedName) (lim : L) (limiters : Limiters L)
      → k ≢ key
      → bucket_of rate key (put name_discrete k lim limiters) ≡ bucket_of rate key limiters
  unfolding bucket_of
  bucket_of-put key k lim limiters ne =
      ground (arith, ne, find-put name_discrete key k lim limiters)

  allow_answer :
      (key : NamespacedName) (now : ℕ) (a b : Limiters L)
      → bucket_of rate key a ≡ bucket_of rate key b
      → (allow rate key now (some a)).1 ≡ (allow rate key now (some b)).1
  unfolding allow
  allow_answer key now a b e = rw e

  -- Whatever other policies ask in between, a policy is answered as if they had not.
  pub allow-other :
      (key : NamespacedName) (now : ℕ) (lims : Option (Limiters L))
      (reqs : List (NamespacedName × ℕ))
      → Others key reqs
      → (allow rate key now (allow_all lims reqs)).1 ≡ (allow rate key now lims).1
  unfolding allow_all allow
  allow-other key now lims [] o = refl
  allow-other key now none ((k, t) ∷ reqs) o = allow-other key now none reqs o.1
  allow-other key now (some limiters) ((k, t) ∷ reqs) o =
      allow-other key now (allow rate k t (some limiters)).0 reqs o.1
      ∙ allow_answer key now _ limiters (bucket_of-put key k _ limiters o.0)
