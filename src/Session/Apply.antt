-- ===== src/Session/Apply.antt =====
-- internal/server/session.go: Apply and applyOne, by which the session is the bulb's driver. What is
-- answered to a command while it waits, and whether it can be encoded and written, is an argument.
pub mod Delivered
use haigosmart.Base.{
  ℕ, List, [], ◌∷◌, ◌++◌, Bool, true, false, not, Option, none, some, if◌then◌else◌, Result, ok,
  err,
}
use haigosmart.Base.Text.{Str}
use haigosmart.Base.Assoc
use haigosmart.Bulb.{LightState}
use haigosmart.Protocol.Alink.{Property, changed_props}
use haigosmart.Registry
use haigosmart.Registry.{Registry}
use haigosmart.Session.{Session, Pending, Answer, confirmed, rejected_with}

pub data Failure : Type 0 where
  encoding disconnected_before sending : Failure
  rejected : ℕ → Failure

-- What applyOne returns: nil, bulb.ErrUnconfirmed or any other error.
pub data Reply : Type 0 where
  done unconfirmed : Reply
  failed : Failure → Reply

-- `command` is the id, the seq and the payload of protocol.EncodeCommand, `closed` the session's flag,
-- and `answer` what arrives on `done` before the context ends.
pub record Attempt : Type 0 where
  pub command : Option (Str × Str × List ℕ)
  pub closed : Bool
  pub accepted : Bool
  pub answer : Option Answer

-- The command waits under its id and its seq; `ident` is its fresh address.
abbrev pub enlist : Session → ℕ → Str → Str → Session
enlist s ident id seq = record s {
  waiting = record { ident = ident; answer = none } ∷ s.waiting;
  pending = Assoc.put s.pending id ident;
  pending_seq = Assoc.put s.pending_seq seq ident;
}

-- The deferred end of applyOne.
abbrev pub forget : Session → Str → Str → Session
forget s id seq = record s {
  pending = Assoc.delete s.pending id;
  pending_seq = Assoc.delete s.pending_seq seq;
}

abbrev reply_of : Option Answer → Reply
reply_of none = unconfirmed
reply_of (some confirmed) = done
reply_of (some (rejected_with code)) = failed (rejected code)

-- `meanwhile` is what the packets that are handled during the wait make of the session.
unfoldable pub apply_one : (Session → Session) → Session → ℕ → Attempt → Session × Reply
apply_one meanwhile s ident a = elim a.command [
  | none ↦ (s, failed encoding)
  | some (id, seq, payload) ↦
      if a.closed
      then (s, failed disconnected_before)
      else if not a.accepted
      then (forget (enlist s ident id seq) id seq, failed sending)
      else (forget (meanwhile (enlist s ident id seq)) id seq, reply_of a.answer)
]

pub data ApplyError : Type 0 where
  no_longer_registered : ApplyError
  not_confirmed : List Property → ApplyError
  failed_with : Failure → ApplyError

-- The loop of Apply, with the properties that it tries and those not confirmed so far.
unfoldable pub apply_props :
    (Property → Reply)
    → List Property
    → List Property
    → List Property × Result ApplyError (Unit {0})
apply_props reply [] [] = ([], ok tt)
apply_props reply [] (u ∷ us) = ([], err (not_confirmed (u ∷ us)))
apply_props reply (p ∷ ps) late = elim (reply p) [
  | done ↦ let (tried, out) = apply_props reply ps late in (p ∷ tried, out)
  | unconfirmed ↦ let (tried, out) = apply_props reply ps (late ++ p ∷ []) in (p ∷ tried, out)
  | failed e ↦ (p ∷ [], err (failed_with e))
]

-- An empty list of properties is nil at once, as it is in the loop.
unfoldable pub apply :
    (Property → Reply) → Registry → Str → LightState → List Property × Result ApplyError (Unit {0})
apply reply r id want = elim (Registry.view r id) [
  | none ↦ ([], err no_longer_registered)
  | some b ↦ apply_props reply (changed_props b.state want b.capabilities) []
]
