-- ===== src/Controller/KillSwitch/Caching.antt =====
-- What the kill switch (pkg/controller/killswitch.go) answers over a sequence of calls, and how
-- often it reads the API.
use sentinel5g.Prelude.{
  ℕ, ◌+◌, ◌≡◌, ◌≢◌, refl, Bool, true, false, none, some, codes, List, [], ◌∷◌, arith, if◌then◌else◌,
  length, ◌↔◌, ◌<◌, ap, ◌∙◌, subst,
}
use sentinel5g.Prelude.Int.{pos, set_or, pos_set_or-eq}
use sentinel5g.Controller.KillSwitch.{
  KillSwitch, ConfigReply, found, not_found, failed, ttl_of, says_true, settle, check,
}

-- A call: the clock before and after the read, and the API's answer.
pub record Call : Type 0 where
  pub now : ℕ
  pub now_after : ℕ
  pub reply : ConfigReply

-- The switch through a sequence of calls, with what each answered and how many read the API.
pub record Trace : Type 0 where
  pub switch : KillSwitch
  pub answers : List Bool
  pub reads : ℕ

unfoldable pub check_all : KillSwitch → List Call → Trace
check_all k [] = record { switch = k; answers = []; reads = 0 }
check_all k (c ∷ cs) =
    let o = check k c.now c.now_after c.reply in
    let t = check_all o.switch cs in
    record {
      switch = t.switch;
      answers = o.engaged ∷ t.answers;
      reads = (if o.read then 1 else 0) + t.reads;
    }

-- Every answer is this one.
abbrev pub AllAnswer : Bool → List Bool → Type 0
AllAnswer b [] = Unit {0}
AllAnswer b (x ∷ xs) = (x ≡ b) × AllAnswer b xs

-- Every call comes before this time.
abbrev pub Before : ℕ → List Call → Type 0
Before end [] = Unit {0}
Before end (c ∷ cs) = (c.now < end) × Before end cs

-- Every read fails.
abbrev pub AllFail : List Call → Type 0
AllFail [] = Unit {0}
AllFail (c ∷ cs) = (c.reply ≡ failed) × AllFail cs

ttl_of-eq : (k : KillSwitch) → ttl_of k ≡ pos (set_or k.ttl 2000000000)
unfolding ttl_of
ttl_of-eq k = pos_set_or-eq k.ttl 2000000000

cached :
    (k : KillSwitch) (cs : List Call) (lifetime : ℕ)
    → ttl_of k ≡ pos lifetime
    → k.ever_read ≡ true
    → Before (k.last_checked + lifetime) cs
    → AllAnswer k.engaged (check_all k cs).answers × ((check_all k cs).reads ≡ 0)
unfolding check_all check
cached k [] lifetime l e f = (tt, refl)
cached k (c ∷ cs) lifetime l e f =
    let rest = cached k cs lifetime l e f.1 in ground (arith, e, l, f.0, rest.0, rest.1)

settle-read :
    (k : KillSwitch) (reply : ConfigReply)
    → reply ≢ failed
    → ((settle k reply).ever_read ≡ true)
      × ((settle k reply).ttl ≡ k.ttl)
      × ((settle k reply).last_checked ≡ k.last_checked)
unfolding settle
settle-read k (found v) good = (refl, refl, refl)
settle-read k not_found good = (refl, refl, refl)
settle-read k failed good = absurd (good refl)

after_read :
    (k : KillSwitch) (c : Call)
    → (check k c.now c.now_after c.reply).read ≡ true
    → c.reply ≢ failed
    → let o = check k c.now c.now_after c.reply in
      (o.switch.engaged ≡ o.engaged)
      × (o.switch.ever_read ≡ true)
      × (o.switch.ttl ≡ k.ttl)
      × (o.switch.last_checked ≡ c.now_after)
unfolding check
after_read k c h good =
    let (seen, ttl, checked) = settle-read (record k { last_checked = c.now_after }) c.reply good in
    ground (arith, h, seen, ttl, checked)

failing_check :
    (k : KillSwitch) (now now_after : ℕ)
    → k.ever_read ≡ true
    → let o = check k now now_after failed in
      (o.engaged ≡ k.engaged) × (o.switch.engaged ≡ k.engaged) × (o.switch.ever_read ≡ true)
unfolding check settle
failing_check k now now_after e = ground arith

-- Once read, the switch keeps its position through any number of failing reads: an engaged one
-- stays engaged, and one that is not engages nothing.
pub check_all_failing :
    (k : KillSwitch) (cs : List Call)
    → k.ever_read ≡ true
    → AllFail cs
    → AllAnswer k.engaged (check_all k cs).answers × ((check_all k cs).switch.engaged ≡ k.engaged)
unfolding check_all
check_all_failing k [] e f = (tt, refl)
check_all_failing k (c ∷ cs) e f =
    let step = failing_check k c.now c.now_after e in
    let rest = check_all_failing (check k c.now c.now_after failed).switch cs step.2 f.1 in
    ground (arith, f.0, step.0, step.1, rest.0, rest.1)

-- A switch that has never been read and cannot be reads the API on every call, its time to live
-- notwithstanding, and answers "not engaged" each time.
pub check_all_unread :
    (k : KillSwitch) (cs : List Call)
    → k.ever_read ≡ false
    → AllFail cs
    → AllAnswer false (check_all k cs).answers × ((check_all k cs).reads ≡ length cs)
unfolding check_all check settle
check_all_unread k [] e f = (tt, refl)
check_all_unread k (c ∷ cs) e f =
    let k' : KillSwitch = record k { last_checked = c.now_after; engaged = false } in
    let rest = check_all_unread k' cs e f.1 in ground (arith, f.0, e, rest.0, rest.1)

-- A call that reads answers what it read: engaged exactly if the value is "true".
pub check_read :
    (k : KillSwitch) (now now_after : ℕ) (reply : ConfigReply)
    → (check k now now_after reply).read ≡ true
    → reply ≢ failed
    → ((check k now now_after reply).engaged ≡ true) ↔ (reply ≡ found (some (codes "true")))
unfolding check settle says_true
check_read k now now_after (found none) h ok = (λ e. ground (arith, h, e), λ e. absurd (cc))
check_read k now now_after (found (some v)) h ok =
    (λ e. ground (arith, h, e), λ e. ground (arith, h, e))
check_read k now now_after not_found h ok = (λ e. ground (arith, h, e), λ e. absurd (cc))
check_read k now now_after failed h ok = absurd (ok refl)

-- A call reads the API, and the read does not fail. It answers "engaged" exactly if the value read is
-- "true"; a ConfigMap that is not there is read, too. Then that answer is given on every call that comes before its time to live is
-- over, be that the one configured or two seconds where it is not positive, and whatever the API
-- would say by now; and the first call is the only one that reads.
pub check_all-once :
    (k : KillSwitch) (c : Call) (cs : List Call)
    → (check k c.now c.now_after c.reply).read ≡ true
    → c.reply ≢ failed
    → Before (c.now_after + set_or k.ttl 2000000000) cs
    → (b : Bool) × ((b ≡ true) ↔ (c.reply ≡ found (some (codes "true"))))
      × AllAnswer b (check_all k (c ∷ cs)).answers
      × ((check_all k (c ∷ cs)).reads ≡ 1)
unfolding check_all
check_all-once k c cs reads good f =
    let o = check k c.now c.now_after c.reply in
    let (same, seen, ttl, checked) = after_read k c reads good in
    let rest =
      cached o.switch cs (set_or k.ttl 2000000000)
        (ttl_of-eq o.switch ∙ ap (λ t. pos (set_or t 2000000000)) ttl) seen (rw checked f) in
    (
      o.engaged,
      check_read k c.now c.now_after c.reply reads good,
      (refl, subst (λ b. AllAnswer b (check_all o.switch cs).answers) same rest.0),
      ground (arith, reads, rest.1),
    )
