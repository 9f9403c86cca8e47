-- ===== src/Session/Answers.antt =====
-- A pending command is answered once, and a connection that was taken over ends silently.
use haigosmart.Base.{
  ℕ, ◌≡◌, ◌≢◌, refl, sym, ap, List, [], ◌∷◌, Bool, true, false, Option, none, some, ◌==◌,
  if◌then◌else◌, arith, Option-cases, inl, inr,
}
use haigosmart.Base.Text.{Str, str_eq_refl}
use haigosmart.Base.Assoc.{get-put}
use haigosmart.Bulb.{Bulb, Capabilities}
use haigosmart.Events.{Event}
use haigosmart.Protocol.Alink.{capabilities_from_version}
use haigosmart.Registry.{
  Registry, find, driver, first_entry, returning, upsert, set_driver, disconnect,
}
use haigosmart.Session.{
  Pending, Answer, deliver, Session, World, device_id, register, publish, leave, report_disconnect,
}

-- The answer to a pending command, if there is one.
unfoldable pub answer_of : List Pending → ℕ → Option Answer
answer_of [] i = none
answer_of (p ∷ ps) i = let rest = answer_of ps i in if p.ident == i then p.answer else rest

unfoldable pub deliver_all : List Pending → List (ℕ × Answer) → List Pending
unfolding deliver
deliver_all ps [] = ps
deliver_all ps ((i, a) ∷ later) = deliver_all (deliver ps i a) later

deliver_keeps :
    (ps : List Pending) (i j : ℕ) (a b : Answer)
    → answer_of ps i ≡ some a
    → answer_of (deliver ps j b) i ≡ some a
unfolding answer_of deliver
deliver_keeps [] i j a b h = h
deliver_keeps (p ∷ ps) i j a b h = ground (arith, deliver_keeps ps i j a b)

-- A pending command that has been answered keeps its answer: no later delivery, to this command or to
-- another, changes it.
pub deliver_all-first :
    (later : List (ℕ × Answer)) (ps : List Pending) (i : ℕ) (a : Answer)
    → answer_of ps i ≡ some a
    → answer_of (deliver_all ps later) i ≡ some a
unfolding deliver_all
deliver_all-first [] ps i a h = h
deliver_all-first ((j, b) ∷ later) ps i a h =
    deliver_all-first later (deliver ps j b) i a (deliver_keeps ps i j a b h)

-- Noting a takeover leaves the registry alone.
noted_registry :
    (taken often : Bool) (w v : World) (e : Event)
    → v.registry ≡ w.registry
    → (if taken then (if often then publish v e else v) else w).registry ≡ w.registry
noted_registry true true w v e h = h
noted_registry true false w v e h = h
noted_registry false often w v e h = refl

register-registry :
    (w : World) (s : Session) (now : ℕ)
    → (register w s now).registry
      ≡ (set_driver
          (upsert w.registry (device_id s) s.remote_addr (capabilities_from_version []) now).0
          (device_id s)
          s.self).0
unfolding register
register-registry w s now = noted_registry _ _ _ _ _ refl

find-upsert :
    (r : Registry) (id addr : Str) (caps : Capabilities) (now : ℕ)
    → (b : Bulb) × (find (upsert r id addr caps now).0 id ≡ some b)
unfolding upsert
find-upsert r id addr caps now = elim (Option-cases (find r id)) [
  | inl e ↦ (first_entry id addr caps now, rw (upsert, e, get-put, str_eq_refl id) refl)
  | inr (b, e) ↦ (returning b addr caps now, rw (upsert, e, get-put, str_eq_refl id) refl)
]

driver-set_driver :
    (r : Registry) (id : Str) (d : ℕ) (b : Bulb)
    → find r id ≡ some b
    → driver (set_driver r id d).0 id ≡ some d
unfolding set_driver driver
driver-set_driver r id d b e = rw (set_driver, e, driver, get-put, str_eq_refl id) refl

driver-register :
    (w : World) (s : Session) (now : ℕ)
    → driver (register w s now).registry (device_id s) ≡ some s.self
driver-register w s now =
    let (b, e) =
      find-upsert w.registry (device_id s) s.remote_addr (capabilities_from_version []) now in
    rw (register-registry w s now) (driver-set_driver _ (device_id s) s.self b e)

silent :
    (w : World) (s : Session) (d later : ℕ) (detail : Str)
    → driver w.registry (device_id s) ≡ some d
    → d ≢ s.self
    → report_disconnect w s later detail ≡ w
unfolding report_disconnect
silent w s d later detail e n =
    let no : (d == s.self) ≡ false = ground arith in rw (report_disconnect, e, no) refl

kept :
    (w : World) (s : Session) (d : ℕ)
    → driver w.registry (device_id s) ≡ some d
    → d ≢ s.self
    → (leave w s).registry ≡ w.registry
unfolding leave disconnect driver
kept w s d e n = ground arith

left_alone :
    (w : World) (s : Session) (d : ℕ)
    → driver w.registry (device_id s) ≡ some d
    → d ≢ s.self
    → leave w s ≡ w
unfolding leave
left_alone w s d e n = ap (λ (r : Registry). record w { registry = r }) (kept w s d e n)

-- When a connection has registered a device under which another connection was known, the report that
-- the other one is gone and its deferred end leave the server as it is: registry, takeovers, refusals
-- and everything published.
pub register_takeover :
    (w : World) (old new : Session) (now later : ℕ) (detail : Str)
    → device_id old ≡ device_id new
    → old.self ≢ new.self
    → (report_disconnect (register w new now) old later detail ≡ register w new now)
      × (leave (register w new now) old ≡ register w new now)
register_takeover w old new now later detail same other =
    let owner : driver (register w new now).registry (device_id old) ≡ some new.self =
      rw same (driver-register w new now) in
    (
      silent (register w new now) old new.self later detail owner (λ e. other (sym e)),
      left_alone (register w new now) old new.self owner (λ e. other (sym e)),
    )
