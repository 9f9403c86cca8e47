-- ===== src/Registry/Fields.antt =====
-- What the operations that record a field do to the map, and what `upsert` does.
use haigosmart.Base.{
  ℕ, ◌≡◌, refl, true, not, ◌&&◌, ◌||◌, none, some, arith, if◌then◌else◌, inl, inr, Bool-cases,
  Option-cases,
}
use haigosmart.Base.Text.{Str, str_eq, is_empty}
use haigosmart.Base.Assoc
use haigosmart.Bulb.{
  Bulb, Status, disconnected, discovered, connected, status_eq, LightState, Capabilities,
}
use haigosmart.Registry.{
  Registry, find, returning, first_entry, upsert, set_state, set_desired, touch, set_firmware,
  capabilities_eq, set_capabilities,
}
use haigosmart.Registry.Operation.{
  Operation, op_upsert, op_set_state, op_set_desired, op_touch, op_set_firmware,
  op_set_capabilities, subject, Change, Effect, unchanged, written, Moves, stays, appears,
  reconnects, given_name,
}

module _ (r : Registry) where
  -- A change that keeps the old entry's id, name, status and capabilities.
  pub plain :
      (o : Operation) (a b : Bulb)
      → given_name o ≡ none
      → b.device_id ≡ a.device_id
      → b.name ≡ a.name
      → b.status ≡ a.status
      → (a.capabilities.known ≡ true → b.capabilities.known ≡ true)
      → Change r o (some a) b
  plain o a b g i n s k = record {
    same_id = i;
    name = rw g n;
    free = rw g tt;
    status = rw s (stays o a.status);
    known = k;
  }

  -- The two cases of an operation that looks its subject up: no entry, or an entry a that it rewrites
  -- to b and nothing else.
  pub rewrites :
      (o : Operation) (a b : Bulb) (r' : Registry)
      → find r (subject o) ≡ some a
      → Change r o (some a) b
      → r'.bulbs ≡ Assoc.put r.bulbs (subject o) b
      → Effect r o r'
  rewrites o a b r' e c p = written b (rw e c) p

  pub effect_touch : (id : Str) (now : ℕ) → Effect r (op_touch id now) (touch r id now)
  unfolding touch
  effect_touch id now = elim (Option-cases (find r id)) [
    | inl e ↦ unchanged (rw (e, touch))
    | inr (a, e) ↦
        let o = op_touch id now in
        let b = record a { last_seen = now } in
        rewrites o a b _ e (plain o a b refl refl refl refl (λ k. k)) (rw (e, touch))
  ]

  pub effect_set_desired :
      (id : Str) (want : LightState) → Effect r (op_set_desired id want) (set_desired r id want)
  unfolding set_desired
  effect_set_desired id want = elim (Option-cases (find r id)) [
    | inl e ↦ unchanged (rw (e, set_desired))
    | inr (a, e) ↦
        let o = op_set_desired id want in
        let b = record a { desired = some want } in
        rewrites o a b _ e (plain o a b refl refl refl refl (λ k. k)) (rw (e, set_desired))
  ]

  pub effect_set_state :
      (id : Str) (state : LightState) (now : ℕ)
      → Effect r (op_set_state id state now) (set_state r id state now).0
  unfolding set_state
  effect_set_state id state now = elim (Option-cases (find r id)) [
    | inl e ↦ unchanged (rw (e, set_state))
    | inr (a, e) ↦
        let o = op_set_state id state now in
        let b = record a { state = state; last_seen = now; desired = none } in
        rewrites o a b _ e (plain o a b refl refl refl refl (λ k. k))
          (rw (e, set_state) (ground arith))
  ]

  pub effect_set_firmware :
      (id version : Str) → Effect r (op_set_firmware id version) (set_firmware r id version)
  unfolding set_firmware
  effect_set_firmware id version = elim (Bool-cases (is_empty version)) [
    | inl h ↦ unchanged (rw (h, set_firmware))
    | inr h ↦ elim (Option-cases (find r id)) [
      | inl e ↦ unchanged (rw (h, set_firmware) (rw e refl))
      | inr (a, e) ↦ elim (Bool-cases (str_eq a.firmware_version version)) [
        | inl s ↦ unchanged (rw (h, set_firmware) (rw e (rw s refl)))
        | inr s ↦
            let o = op_set_firmware id version in
            let b = record a { firmware_version = version } in
            rewrites o a b _ e (plain o a b refl refl refl refl (λ k. k))
              (rw (h, set_firmware) (rw e (rw s refl)))
      ]
    ]
  ]

  pub effect_set_capabilities :
      (id : Str) (caps : Capabilities)
      → Effect r (op_set_capabilities id caps) (set_capabilities r id caps).0
  unfolding set_capabilities
  effect_set_capabilities id caps = elim (Option-cases (find r id)) [
    | inl e ↦ unchanged (rw (e, set_capabilities))
    | inr (a, e) ↦
        let skip =
          (not caps.known && a.capabilities.known) || capabilities_eq a.capabilities caps in
        elim (Bool-cases skip) [
          | inl s ↦ unchanged (rw (e, set_capabilities) (rw s refl))
          | inr s ↦
              let o = op_set_capabilities id caps in
              let b = record a { capabilities = caps } in
              rewrites o a b _ e (plain o a b refl refl refl refl (λ k. ground arith))
                (rw (e, set_capabilities) (rw s refl))
        ]
  ]

  pub effect_upsert :
      (id addr : Str) (caps : Capabilities) (now : ℕ)
      → Effect r (op_upsert id addr caps now) (upsert r id addr caps now).0
  unfolding upsert
  effect_upsert id addr caps now = elim (Option-cases (find r id)) [
    | inl e ↦
        written (first_entry id addr caps now)
          (rw e (record {
            same_id = refl;
            name = refl;
            free = tt;
            status = appears id addr caps now;
            known = tt;
          }))
          (rw (e, upsert))
    | inr (a, e) ↦
        let o = op_upsert id addr caps now in
        rewrites o a (returning a addr caps now) _ e
          (record {
            same_id = refl;
            name = refl;
            free = tt;
            status = returns a.status;
            known = λ k. ground arith;
          })
          (rw (e, upsert))
  ]
    where
      returns :
          (s : Status)
          → Moves
              (op_upsert id addr caps now)
              (some s)
              (if status_eq s discovered then s else connected)
      returns disconnected = reconnects id addr caps now
      returns discovered = stays (op_upsert id addr caps now) discovered
      returns connected = stays (op_upsert id addr caps now) connected
