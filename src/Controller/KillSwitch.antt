-- ===== src/Controller/KillSwitch.antt =====
-- pkg/controller/killswitch.go: the global stop of mitigation. A call takes the times that its two
-- reads of the clock give and what the API would answer, and says whether it read the API.
pub mod Caching
use sentinel5g.Prelude.{
  ℕ, Bool, true, false, Option, none, some, Text, codes, text_discrete, ite, if◌then◌else◌, ◌&&◌,
}
use sentinel5g.Prelude.Int.{ℤ, pos, sub_ℕ, ltb_ℤ}

-- defaultKillSwitchTTL, 2 seconds in nanoseconds.
abbrev pub default_kill_switch_ttl : ℕ
default_kill_switch_ttl = 2000000000

pub record KillSwitch : Type 0 where
  pub ttl : ℤ
  pub last_checked : ℕ
  pub engaged : Bool
  pub ever_read : Bool

-- A switch as main builds it: nothing read yet.
abbrev pub unread : ℤ → KillSwitch
unread ttl = record { ttl = ttl; last_checked = 0; engaged = false; ever_read = false }

-- What the Get of the ConfigMap answers: the value under "engaged", if the key is there; that there
-- is no such ConfigMap; or any other error.
pub data ConfigReply : Type 0 where
  found : Option Text → ConfigReply
  not_found failed : ConfigReply

-- (k *KillSwitch) ttl()
unfoldable pub ttl_of : KillSwitch → ℤ
ttl_of k = if ltb_ℤ (pos 0) k.ttl then k.ttl else pos default_kill_switch_ttl

-- A missing key reads as the empty string.
unfoldable pub says_true : Option Text → Bool
says_true none = false
says_true (some v) = ite (text_discrete v (codes "true")) true false

-- The switch in Engaged.
unfoldable pub settle : KillSwitch → ConfigReply → KillSwitch
unfolding says_true
settle k (found v) = record k { engaged = says_true v; ever_read = true }
settle k not_found = record k { engaged = false; ever_read = true }
settle k failed = record k { engaged = if k.ever_read then k.engaged else false }

pub record Outcome : Type 0 where
  pub switch : KillSwitch
  pub engaged : Bool
  pub read : Bool

-- Engaged, of a switch that is there.
unfoldable pub check : KillSwitch → ℕ → ℕ → ConfigReply → Outcome
unfolding ttl_of settle
check k now now_after reply =
    if k.ever_read && ltb_ℤ (sub_ℕ now k.last_checked) (ttl_of k)
    then record { switch = k; engaged = k.engaged; read = false }
    else (let k' = settle (record k { last_checked = now_after }) reply in
        record { switch = k'; engaged = k'.engaged; read = true })

-- Engaged: no switch, or one with no reader, suppresses nothing.
unfoldable pub check_optional : Option KillSwitch → ℕ → ℕ → ConfigReply → Option KillSwitch × Bool
check_optional none now now_after reply = (none, false)
check_optional (some k) now now_after reply =
    let o = check k now now_after reply in (some o.switch, o.engaged)
