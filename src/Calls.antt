-- ===== src/Calls.antt =====
-- Voice and video calls: the Lua script of RedisMgr::VoiceTransition (ChatServerShared/RedisMgr.cpp), the
-- one state machine of a call that both chat nodes share. The text that cjson gives a call, and Lua's
-- numbers, are parameters. The members q, l and c of a direction of a medium are grouped as a Lane; a
-- member that a call's text lacks has the value that the script's `or` gives it.
pub mod Script
pub mod Replay
pub mod Runs
pub mod Settle
pub mod Invite
use cpp_chat.Base.{
  leb, ◌==◌, if◌then◌else◌, Text, text_eq, int_eq, ℤ, ℕ, ◌-◌, ◌/◌, Bool, true, false, not, ◌&&◌,
  ◌||◌, Option, none, some,
}
use cpp_chat.Leases.{success, token_invalid}

-- Lua's numbers, as the script computes with times and credits.
pub record Numbers : Type 1 where
  pub Num : Type 0
  pub num : ℕ → Num
  pub thousandths : ℕ → Num
  pub plus : Num → Num → Num
  pub minus : Num → Num → Num
  pub times : Num → Num → Num
  pub least : Num → Num → Num
  pub less : Num → Num → Bool

-- ErrorCodes of const.h.
abbrev pub voice_busy : ℕ
voice_busy = 1021

abbrev pub voice_offline : ℕ
voice_offline = 1022

abbrev pub voice_invalid : ℕ
voice_invalid = 1023

abbrev pub voice_rate_limited : ℕ
voice_rate_limited = 1025

-- CallPolicy::TimeoutMs, and CallPolicy::LeaseMs in seconds.
abbrev pub timeout_ms : ℕ
timeout_ms = 30000

abbrev pub lease_seconds : ℕ
lease_seconds = 45

-- `other` is a text that the script does not know.
pub data Action : Type 0 where
  invite accept reject cancel hangup frame video ping camera other : Action

pub data Stage : Type 0 where
  ringing active : Stage

pub record Lane (Num : Type 0) : Type 0 where
  pub sequence : ℕ
  pub last : Option Num
  pub credit : Option Num

pub record Call (Num : Type 0) : Type 0 where
  pub id : Text
  pub a : ℤ
  pub b : ℤ
  pub sa : Text
  pub sb : Text
  pub da : Text
  pub db : Text
  pub stage : Stage
  pub has_video : Bool
  pub ea : Bool
  pub eb : Bool
  pub ta : Num
  pub tb : Num
  -- qa, la, ca; qb, lb, cb; qva, lva, cva; qvb, lvb, cvb
  pub audio_a : Lane Num
  pub audio_b : Lane Num
  pub video_a : Lane Num
  pub video_b : Lane Num

-- The arguments of VoiceTransition.
pub record Request : Type 0 where
  pub uid : ℤ
  pub peer : ℤ
  pub session : Text
  pub call : Text
  pub action : Action
  pub sequence : ℕ
  pub wants_video : Bool
  pub camera_enabled : Bool
  pub device : Text
  pub peer_device : Text
  pub peer_session : Text

-- What the script does with an existing call: it leaves it, deletes it, or writes it.
pub data Verdict (Num : Type 0) : Type 0 where
  refuse : ℕ → Verdict Num
  finish : ℕ → Verdict Num
  update : Call Num → Verdict Num

abbrev pub is_ringing : Stage → Bool
is_ringing ringing = true
is_ringing active = false

abbrev pub same_bool : Bool → Bool → Bool
same_bool true b = b
same_bool false b = not b

abbrev pub or_else {ℓ} : {A : Type ℓ} → Option A → A → A
or_else none a = a
or_else (some x) a = x

module _ {Num : Type 0} where
  abbrev pub lane_of : Bool → Bool → Call Num → Lane Num
  lane_of true true c = c.video_a
  lane_of true false c = c.video_b
  lane_of false true c = c.audio_a
  lane_of false false c = c.audio_b

  abbrev pub with_lane : Bool → Bool → Lane Num → Call Num → Call Num
  with_lane true true l c = record c { video_a = l }
  with_lane true false l c = record c { video_b = l }
  with_lane false true l c = record c { audio_a = l }
  with_lane false false l c = record c { audio_b = l }

  -- if first then c.ta=now else c.tb=now end
  abbrev pub touch : Bool → Num → Call Num → Call Num
  touch true now c = record c { ta = now }
  touch false now c = record c { tb = now }

  -- c[first and 'ea' or 'eb']=enabled
  abbrev pub set_camera : Bool → Bool → Call Num → Call Num
  set_camera true enabled c = record c { ea = enabled }
  set_camera false enabled c = record c { eb = enabled }

  abbrev pub is_first : Request → Call Num → Bool
  is_first r c = int_eq c.a r.uid && int_eq c.b r.peer

  abbrev pub is_second : Request → Call Num → Bool
  is_second r c = int_eq c.b r.uid && int_eq c.a r.peer

  abbrev pub devices_match : Bool → Request → Call Num → Bool
  devices_match true r c = text_eq c.da r.device && text_eq c.db r.peer_device
  devices_match false r c = text_eq c.db r.device && text_eq c.da r.peer_device

  abbrev pub sessions_match : Bool → Request → Text → Call Num → Bool
  sessions_match true r ps c = text_eq c.sa r.session && text_eq c.sb ps
  sessions_match false r ps c = text_eq c.sb r.session && text_eq c.sa ps

module _ (N : Numbers) where
  open N use {Num, num, thousandths, plus, minus, times, least, less}

  -- The credit that is available on a lane.
  abbrev pub available : Bool → Num → Lane Num → Num
  available picture now l =
      let burst = if picture then num 2 else num 10 in
      let rate = if picture then thousandths 8 else thousandths 60 in
      least burst (plus (or_else l.credit burst) (times (minus now (or_else l.last now)) rate))

  -- op=='frame' or op=='video'
  unfoldable pub take_media : Bool → Bool → Num → ℕ → Call Num → Verdict Num
  take_media picture first now n c =
      let l = lane_of picture first c in
      if picture && (not c.has_video || not (if first then c.ea else c.eb))
      then refuse voice_invalid
      else if leb n l.sequence
      then refuse voice_invalid
      else if less (available picture now l) (num 1)
      then refuse voice_rate_limited
      else update (
          touch first now (
            with_lane picture first
              (record {
                sequence = n;
                last = some now;
                credit = some (minus (available picture now l) (num 1));
              })
              c))

  -- The operations of an active call, once the peer is known to be alive.
  abbrev pub act_active : Bool → Num → Request → Action → Call Num → Verdict Num
  act_active first now r frame c = take_media false first now r.sequence c
  act_active first now r video c = take_media true first now r.sequence c
  act_active first now r ping c = update (touch first now c)
  act_active first now r camera c =
      if not c.has_video then refuse voice_invalid else update (set_camera first r.camera_enabled c)
  act_active first now r _ c = refuse voice_invalid

  abbrev pub act_live : Bool → Num → Request → Action → Call Num → Verdict Num
  act_live first now r accept c =
      if first || not (is_ringing c.stage)
      then refuse voice_invalid
      else update (record c { stage = active; ta = now; tb = now })
  act_live first now r op c =
      if is_ringing c.stage
      then refuse voice_invalid
      else if less (num timeout_ms) (minus now (if first then c.tb else c.ta))
      then finish voice_invalid
      else act_active first now r op c

  abbrev pub act : Bool → Num → Request → Action → Call Num → Verdict Num
  act first now r hangup c = finish success
  act first now r reject c =
      if first || not (is_ringing c.stage) then refuse voice_invalid else finish success
  act first now r cancel c =
      if not first || not (is_ringing c.stage) then refuse voice_invalid else finish success
  act first now r op c =
      if not (same_bool c.has_video r.wants_video)
      then refuse voice_invalid
      else act_live first now r op c

  -- The script from `c.id~=id` on; `ps` is the peer's session.
  unfoldable pub decide : Num → Request → Text → Call Num → Call Num → Verdict Num
  decide now r ps c d =
      if not (text_eq c.id r.call) || not (text_eq d.id r.call)
      then refuse voice_invalid
      else if not (is_first r c) && not (is_second r c)
      then refuse voice_invalid
      else if not (devices_match (is_first r c) r c)
      then refuse token_invalid
      else if not (sessions_match (is_first r c) r ps c)
      then refuse token_invalid
      else act (is_first r c) now r r.action c
