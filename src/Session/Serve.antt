-- ===== src/Session/Serve.antt =====
-- internal/server/session.go: serve, from the registration on. The reader is the bytes that the bulb
-- sends; `meanwhile` is what the other connections and the front ends do to the server's state before
-- each read, and `clock` the time then, both by what is left to read.
use haigosmart.Base.{
  ℕ, zero, suc, ◌<◌, ◌≡◌, ◌≢◌, refl, List, [], ◌++◌, Option, none, some, ◌==◌, arith, length, ok,
  err, Result-cases, Option-cases, Bool-cases, inl, inr,
}
use haigosmart.Base.Text.{Str, str_eq_refl}
use haigosmart.Base.Assoc.{get-put}
use haigosmart.Events.{protocol_error}
use haigosmart.Protocol.Wire.{read_packet}
use haigosmart.Protocol.Wire.Stream.{read_packet_takes}
use haigosmart.Registry.{Registry, find, driver, disconnect}
use haigosmart.Session.{
  Environment, World, Session, device_id, publish, event, register, report_disconnect, leave,
}
use haigosmart.Session.Packets.{handle}

-- The loop. `none` is no Go value: the fuel ran out.
unfoldable pub serve_loop :
    ℕ
    → Environment
    → (List ℕ → World → World)
    → (List ℕ → ℕ)
    → World
    → Session
    → List (List ℕ)
    → List ℕ
    → Option (World × List (List ℕ))
serve_loop zero env meanwhile clock w s written r = none
serve_loop (suc fuel) env meanwhile clock w s written r =
    let w1 = meanwhile r w in
    let now = clock r in
    elim (read_packet r) [
      | err e ↦ some (report_disconnect w1 s now [], written)
      | ok (p, rest) ↦
          let out = handle env w1 s p now in
          elim out.error [
            | some e ↦ some (
              publish out.world (event out.world out.session now protocol_error []),
              written ++ out.written,
            )
            | none ↦
                serve_loop fuel env meanwhile clock out.world out.session (written ++ out.written)
                  rest
          ]
    ]

-- The deferred Disconnect has its arguments from before the loop. A packet takes a byte at least, so
-- one round more than there are bytes is fuel enough.
unfoldable pub serve_registered :
    Environment
    → (List ℕ → World → World)
    → (List ℕ → ℕ)
    → World
    → Session
    → List ℕ
    → Option (World × List (List ℕ))
serve_registered env meanwhile clock w s r =
    elim (serve_loop (suc (length r)) env meanwhile clock (register w s (clock r)) s [] r) [
      | none ↦ none
      | some (w', written) ↦ some (leave w' s, written)
    ]

serve_loop_total :
    (fuel : ℕ) (env : Environment) (meanwhile : List ℕ → World → World) (clock : List ℕ → ℕ)
    (w : World) (s : Session) (written : List (List ℕ)) (r : List ℕ)
    → length r < fuel
    → (out : World × List (List ℕ)) × (serve_loop fuel env meanwhile clock w s written r ≡ some out)
unfolding serve_loop
serve_loop_total zero env meanwhile clock w s written r h = absurd (omega arith)
serve_loop_total (suc fuel) env meanwhile clock w s written r h =
    elim (Result-cases (read_packet r)) [
      | inr (e, x) ↦
          ((report_disconnect (meanwhile r w) s (clock r) [], written), rw (serve_loop, x) refl)
      | inl ((p, rest), x) ↦
          let (size, takes, most) = read_packet_takes r p rest x in
          let out = handle env (meanwhile r w) s p (clock r) in
          elim (Option-cases out.error) [
            | inr (e, y) ↦ (
              (
                publish out.world (event out.world out.session (clock r) protocol_error []),
                written ++ out.written,
              ),
              rw (serve_loop, x, y) refl,
            )
            | inl y ↦
                let (end, same) =
                  serve_loop_total fuel env meanwhile clock out.world out.session
                    (written ++ out.written) rest (omega arith) in
                (end, rw (serve_loop, x, y) same)
          ]
    ]

-- A bulb's entry after the connection d has gone.
driver-disconnect :
    (r : Registry) (id : Str) (d : ℕ) → driver (disconnect r id (some d)) id ≢ some d
unfolding driver disconnect
driver-disconnect r id d same = elim (Option-cases (find r id)) [
  | inl e ↦ let gone : none ≡ some d = rw (disconnect, e, driver, e) at same in cc
  | inr (b, e) ↦ elim (Option-cases b.driver) [
    | inl f ↦ let gone : none ≡ some d = rw (disconnect, e, f, driver, e, f) at same in cc
    | inr (x, f) ↦ elim (Bool-cases (x == d)) [
      | inl own ↦
          let gone : none ≡ some d =
            rw (disconnect, e, f, own, driver, get-put, str_eq_refl id) at same in
          cc
      | inr other ↦
          let theirs : some x ≡ some d = rw (disconnect, e, f, other, driver, e, f) at same in
          ground arith
    ]
  ]
]

-- Whatever a registered bulb sends, and whatever else happens in the meantime, serving it ends, and
-- then its session is no longer the bulb's driver.
pub serve_registered_total :
    (env : Environment) (meanwhile : List ℕ → World → World) (clock : List ℕ → ℕ) (w : World)
    (s : Session) (r : List ℕ)
    → (w' : World) × (written : List (List ℕ)) × (serve_registered env meanwhile clock w s r
        ≡ some (w', written))
      × (driver w'.registry (device_id s) ≢ some s.self)
unfolding leave serve_registered
serve_registered_total env meanwhile clock w s r =
    let ((w', written), same) =
      serve_loop_total (suc (length r)) env meanwhile clock (register w s (clock r)) s [] r
        (omega arith) in
    (
      leave w' s,
      written,
      rw (serve_registered, same) refl,
      driver-disconnect w'.registry (device_id s) s.self,
    )
