-- ===== src/Bus/Connector.antt =====
-- pkg/events/connector.go: Run tries to connect until it succeeds or is told to stop.
use sentinel5g.Prelude.{
  ℕ, suc, zero, ◌*◌, ◌^◌, ◌≡◌, refl, arith, ap, ◌∙◌, Bool, true, false, List, [], ◌∷◌, ◌++◌, Option,
  none, some, if◌then◌else◌, ltb,
}

abbrev pub second : ℕ
second = 1000000000

abbrev pub max_backoff : ℕ
max_backoff = 30 * second

-- The bus, set once it is there; what is closed is `ready`.
pub record Connector (B : Type 0) : Type 0 where
  pub bus : Option B

-- NewConnector
abbrev pub new_connector : {B : Type 0} → Connector B
new_connector = record { bus = none }

-- Connected
unfoldable pub connected : {B : Type 0} → Connector B → Bool
connected c = elim c.bus [ none ↦ false | some b ↦ true ]

-- What one turn of Run meets: a bus, or a failure and whether the context ends before the wait does.
pub data Attempt (B : Type 0) : Type 0 where
  connects : B → Attempt B
  fails : Bool → Attempt B

-- The next wait.
unfoldable pub next_backoff : ℕ → ℕ
next_backoff backoff =
    if ltb backoff max_backoff
    then (if ltb max_backoff (backoff * 2) then max_backoff else backoff * 2)
    else backoff

-- Run from a wait on, with the waits it has sat through.
unfoldable pub run_from : {B : Type 0} → ℕ → List (Attempt B) → Connector B → Connector B × List ℕ
run_from backoff [] c = (c, [])
run_from backoff (connects bus ∷ attempts) c = (record { bus = some bus }, [])
run_from backoff (fails done ∷ attempts) c =
    let (c', waits) = run_from (next_backoff backoff) attempts c in
    if done then (c, []) else (c', backoff ∷ waits)

-- Run
unfoldable pub run_connector : {B : Type 0} → List (Attempt B) → Connector B → Connector B × List ℕ
run_connector attempts c = run_from second attempts c

-- The wait after that many failures, written directly: doubled each time, up to the largest.
unfoldable pub capped : ℕ → ℕ
capped n = if ltb max_backoff (2 ^ n * second) then max_backoff else 2 ^ n * second

-- The waits from one failure on, as many as asked for.
unfoldable pub capped_waits : ℕ → ℕ → List ℕ
capped_waits n zero = []
capped_waits n (suc k) = capped n ∷ capped_waits (suc n) k

two_pow_suc : (n : ℕ) → 2 ^ suc n ≡ 2 ^ n * 2
two_pow_suc n = omega arith

next_backoff-capped : (n : ℕ) → next_backoff (capped n) ≡ capped (suc n)
unfolding next_backoff capped
next_backoff-capped n = ground (arith, two_pow_suc n)

-- A number of failures that do not end it.
unfoldable pub failures : {B : Type 0} → ℕ → List (Attempt B)
failures zero = []
failures (suc k) = fails false ∷ failures k

run_from-failures :
    {B : Type 0} (n k : ℕ) (bus : B) (attempts : List (Attempt B)) (c : Connector B)
    → run_from (capped n) (failures k ++ connects bus ∷ attempts) c
      ≡ (record { bus = some bus }, capped_waits n k)
unfolding run_from failures capped_waits
run_from-failures {B} n zero bus attempts c = refl
run_from-failures {B} n (suc k) bus attempts c =
    let rest =
      ap (λ b. run_from b (failures k ++ connects bus ∷ attempts) c) (next_backoff-capped n)
      ∙ run_from-failures (suc n) k bus attempts c in
    ap (λ (q : Connector B × List ℕ). (q.0, capped n ∷ q.1)) rest

-- However often it fails first, Run ends at the first attempt that succeeds, with that attempt's bus;
-- until then it has waited once for each failure, one second doubled each time up to thirty seconds.
pub run_connector-connects :
    {B : Type 0} (k : ℕ) (bus : B) (attempts : List (Attempt B)) (c : Connector B)
    → run_connector (failures k ++ connects bus ∷ attempts) c
      ≡ (record { bus = some bus }, capped_waits 0 k)
unfolding run_connector capped
run_connector-connects k bus attempts c = run_from-failures 0 k bus attempts c
